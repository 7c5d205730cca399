-- ===== src/Tests/State.antt =====
-- Runs and instances over blockchain/src/state.rs and blockchain/src/memory/state.rs.
use rust_chain.Prelude.{
  ℕ, ◌≡◌, ◌≤◌, refl, Option, none, some, List, [], ◌∷◌, Result, ok, err, arith, leb, if◌then◌else◌,
}
use rust_chain.Prelude.Eq.{nat_eq}
use rust_chain.Prelude.HashMap
use rust_chain.Prelude.BTreeMap
use rust_chain.ForkTree.{ForkTree, is_ancestor}
use rust_chain.FlatState.{OverlayedFlatState, overlayed, into_changeset}
use rust_chain.FlatState.Overlay.{
  Write, inserts, removes, last_write, write_all, get-write_all, into_changeset-write_all,
}
use rust_chain.FlatState
use rust_chain.Memory.Chain.{QueryError, invalid_ancestor_depth, memory_fork_tree, block_depth}
use rust_chain.Memory.State.{MemoryFlatState, memory_flat_state, new, history_of, get, apply}
use rust_chain.Memory.State.Changes.{last_change}
use rust_chain.Memory.State.Inherit.{IsFiledBy, has_shallower, get-memory}
use rust_chain.Memory.State.Nearest.{Ancestry, IsKnownAt, IsNearest}
use rust_chain.Memory.State.Reads.{get-apply, get-apply_deeper}
use rust_chain.Memory.State.Refines.{answer, get-IsNearest}
use rust_chain.Memory.State.Written.{written_in, IsFiled}
use rust_chain.Tests.Chain.{block_identified, pair_tree, pair_tree-IsLinked, root_item, child_item}

abbrev State : Type 0
State = MemoryFlatState ℕ ℕ ℕ

-- Key 100 is written in the genesis.
abbrev changes : List (ℕ × Option ℕ)
changes = (100, some 7) ∷ (200, none) ∷ []

empty_filed : IsFiledBy pair_tree (new {K = ℕ} {V = ℕ} {I = ℕ})
unfolding new history_of HashMap.get
empty_filed key = tt

genesis_state : State
unfolding new
genesis_state = (apply memory_fork_tree new changes 0 pair_tree).1

get-apply_example :
    let (result, s') = apply memory_fork_tree (new {K = ℕ} {V = ℕ} {I = ℕ}) changes 0 pair_tree in
    (result ≡ ok tt)
    × IsFiledBy pair_tree s'
    × ((q : ℕ)
        → get memory_fork_tree s' q 0 pair_tree ≡ elim (last_change q changes) [
          | some v ↦ ok v
          | none ↦ get memory_fork_tree (new {K = ℕ} {V = ℕ} {I = ℕ}) q 0 pair_tree
        ])
unfolding pair_tree HashMap.get
get-apply_example = get-apply pair_tree new changes 0 root_item pair_tree-IsLinked empty_filed refl

genesis_filed : IsFiledBy pair_tree genesis_state
unfolding genesis_state pair_tree HashMap.get
genesis_filed = get-apply_example.1

-- The child does not read what the genesis wrote.
get-memory_example : get memory_fork_tree genesis_state 100 1 pair_tree ≡ err invalid_ancestor_depth
unfolding genesis_state pair_tree HashMap.get get apply written_in has_shallower history_of
    BTreeMap.get block_depth BTreeMap.modify_or BTreeMap.same BTreeMap.before
get-memory_example =
    get-memory pair_tree genesis_state 100 1 child_item pair_tree-IsLinked genesis_filed refl

get-apply_deeper_example :
    get memory_fork_tree (apply memory_fork_tree new changes 0 pair_tree).1 100 1 pair_tree
    ≡ err invalid_ancestor_depth
unfolding pair_tree HashMap.get last_change new written_in history_of BTreeMap.get
get-apply_deeper_example =
    get-apply_deeper pair_tree new changes 100 0 1 root_item child_item (some 7) pair_tree-IsLinked
      empty_filed refl refl (omega arith) refl refl

-- A correct fork tree: one chain, each block its own depth.
line_ancestor : ℕ → ℕ → Result ℕ QueryError
line_ancestor id depth = if leb depth id then ok depth else err invalid_ancestor_depth

abbrev line : ForkTree ℕ ℕ ℕ QueryError
line = record {
  block = λ t id. ok id;
  block_depth = λ t id. ok id;
  ancestor_id_at_depth = λ t id depth. line_ancestor id depth;
}

line-is_ancestor :
    (id a : ℕ) → Unit {0} → Unit {0} → a ≤ id → is_ancestor line 0 id a ≡ ok (leb a id)
unfolding is_ancestor line_ancestor
line-is_ancestor id a k l h = ground arith

line_ancestry : Ancestry line 0
line_ancestry = record {
  IsKnown = λ a. Unit;
  depth_of = λ a. a;
  ancestor = λ id a. leb a id;
  block_depth_lem = λ a k. refl;
  is_ancestor_lem = line-is_ancestor;
  depth_le = λ id a h. ground arith;
  one_at_depth = λ id a c h g eq. eq;
}

-- Key 5 was written at block 1 and removed at block 3; block 2 reads the write.
abbrev line_state : State
line_state = record { state = (5, (1, (1, some 50) ∷ []) ∷ (3, (3, none) ∷ []) ∷ []) ∷ [] }

line-IsFiled : IsFiled (IsKnownAt line_ancestry) (history_of line_state 5)
unfolding line_ancestry history_of HashMap.get
line-IsFiled = (
  (omega arith, tt),
  (λ h. ground arith),
  ((tt, refl), tt),
  (tt, (λ h. ground arith), ((tt, refl), tt), tt),
)

get-IsNearest_example :
    (r : Option (Option ℕ)) × (get line line_state 5 2 0 ≡ ok (answer r))
    × IsNearest line_ancestry 2 (history_of line_state 5) r
    × ((r' : Option (Option ℕ)) → IsNearest line_ancestry 2 (history_of line_state 5) r' → r' ≡ r)
unfolding line_ancestry
get-IsNearest_example = get-IsNearest line_ancestry line_state 5 2 tt line-IsFiled

-- Two writes over the state of the line, read at block 2.
abbrev writes : List (Write ℕ ℕ)
writes = inserts 6 60 ∷ removes 5 ∷ []

get-write_all_example :
    FlatState.get (memory_flat_state line) (write_all (overlayed line_state 2 0) writes) 5 ≡ ok none
unfolding last_write
get-write_all_example = get-write_all (memory_flat_state line) line_state 2 0 writes 5

into_changeset-write_all_example :
    HashMap.get 6 (into_changeset {T = ℕ} {I = ℕ} (write_all (overlayed line_state 2 0) writes))
    ≡ some (some 60)
unfolding last_write
into_changeset-write_all_example = into_changeset-write_all line_state 2 0 writes 6
