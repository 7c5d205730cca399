-- ===== src/Tests/Client.antt =====
-- The blocks of the test of blockchain/tests/simple.rs.
use mathlib.Core.List.{Pairwise, Pairwise-pair}
use mathlib.Core.List.Perm
use mathlib.Core.HLevel.{¬_prop}
use rust_chain.Prelude.{
  All, All-get, ℕ, ◌≡◌, ◌<◌, refl, some, none, Option, List, [], ◌∷◌, ok, err, arith, returned,
  panicked,
}
use rust_chain.Prelude.Eq.{nat_eq}
use rust_chain.Prelude.HashMap
use rust_chain.Prelude.BTreeMap
use rust_chain.Memory.Chain.{
  MemoryForkTreeItem, new as new_tree, block_depth, store, insert, invalid_ancestor_depth,
  unknown_block, memory_fork_tree,
}
use rust_chain.Memory.Chain.Lookup.{new_item}
use rust_chain.Memory.State.{get, new as new_state, apply as apply_changes}
use rust_chain.Memory.Transactional.{new, deref, apply}
use rust_chain.Client.{
  block_id_eq, block_identified, BlockId, Block, ChainData, sets, valid_seal, invalid_seal, Chain,
  not_sealed, import_data, finish_import, commit, execute, import,
}
use rust_chain.Client.Changes.{last_set, set_all}
use rust_chain.Client.Import.{import_result, import_lem}
use rust_chain.Client.Reads.{IsSound}
use rust_chain.Client.Importable.{IsImportable}
use rust_chain.Client.View.{View, IsApart, read}
use rust_chain.Client.Refines.{import_view_all, genesis_view, import_all-refines}
use rust_chain.Client.Order.{answers, import_all_perm}
use rust_chain.Client.Isolation.{import-reads_old}
use rust_chain.Client.Genesis.{start}
use rust_chain.Client.Scenario.{start-reads}
use rust_chain.Memory.State.Changes.{last_change}
use rust_chain.Client.Build.{build}
use rust_chain.Client.Life.{
  import_all, import_all-start, genesis_data, genesis_data-IsHealthy, get-genesis, start_lem,
}
use rust_chain.Tests.Chain.{no_repetition}

abbrev id : ℕ → ℕ → BlockId
id fork number = record { fork = fork; number = number }

abbrev genesis : Block
genesis = record { seal = invalid_seal; id = id 0 0; parent_id = none; number = 0; extrinsics = [] }

abbrev genesis_state : List (ℕ × Option ℕ)
genesis_state = (100, some 100) ∷ (200, some 200) ∷ []

abbrev child : Block
child = record {
  seal = valid_seal;
  id = id 0 1;
  parent_id = some (id 0 0);
  number = 1;
  extrinsics = sets 100 200 ∷ [];
}

-- The same on another fork.
abbrev sibling : Block
sibling = record child { id = id 1 1; extrinsics = sets 100 300 ∷ [] }

abbrev chain_data : ChainData
chain_data = genesis_data genesis genesis_state

import_lem_example : import no_repetition (new chain_data) child ≡ import_result chain_data child
import_lem_example = import_lem no_repetition chain_data child

import_all-start_example :
    (chain : Chain) × (start no_repetition genesis genesis_state ≡ returned (ok tt, chain))
    × (d : ChainData) × (import_all no_repetition chain (child ∷ sibling ∷ []) ≡ new d)
    × IsSound d
    × ((k : BlockId) (item : MemoryForkTreeItem Block BlockId)
        → HashMap.get k d.fork_tree.blocks ≡ some item
        → item.depth < 4)
unfolding import import_data finish_import commit execute deref new apply insert store new_tree
    new_state apply_changes block_depth HashMap.get HashMap.insert HashMap.modify
import_all-start_example =
    import_all-start no_repetition genesis genesis_state (child ∷ sibling ∷ []) refl refl
      (refl, (refl, tt))

-- A genesis with an extrinsic.
start_panics :
    start no_repetition (record genesis { extrinsics = sets 1 2 ∷ [] }) genesis_state ≡ panicked
start_panics =
    start_lem no_repetition (record genesis { extrinsics = sets 1 2 ∷ [] }) genesis_state refl

import-reads_old_example :
    (d' : ChainData) × (import no_repetition (new chain_data) child ≡ (ok tt, new d'))
    × (get memory_fork_tree d'.state 100 (id 0 0) d'.fork_tree
        ≡ get memory_fork_tree chain_data.state 100 (id 0 0) chain_data.fork_tree)
unfolding store new_tree HashMap.get HashMap.insert
import-reads_old_example =
    import-reads_old no_repetition chain_data child (id 0 0) (new_item genesis 0 []) refl
      (get-genesis genesis genesis_state) refl
      (genesis_data-IsHealthy no_repetition genesis genesis_state refl).0 refl refl (id 0 0)
      (new_item genesis 0 []) 100 (get-genesis genesis genesis_state) (omega arith)

start-reads_example :
    (chain : Chain) × (start no_repetition genesis genesis_state ≡ returned (ok tt, chain))
    × (block : Block) × (d' : ChainData) × (build chain genesis.id (sets 100 200 ∷ []) ≡ ok block)
    × (import no_repetition chain block ≡ (ok tt, new d'))
    × (get memory_fork_tree d'.state 200 block.id d'.fork_tree ≡ err invalid_ancestor_depth)
    × (get memory_fork_tree d'.state 200 genesis.id d'.fork_tree ≡ ok (some 200))
unfolding last_set last_change
start-reads_example =
    start-reads no_repetition genesis genesis_state refl (sets 100 200 ∷ []) refl 200

forks-IsImportable : All (λ b. IsImportable chain_data 0 b) (child ∷ sibling ∷ [])
unfolding store new_tree HashMap.get HashMap.insert
forks-IsImportable = ((refl, refl, refl, refl), ((refl, refl, refl, refl), tt))

forks-IsApart : Pairwise IsApart (child ∷ sibling ∷ [])
forks-IsApart = (Pairwise-pair (λ a b. ¬_prop)).1 (ground arith)

import_all_perm_example :
    (answers no_repetition (new chain_data) (sibling ∷ child ∷ []) ≡ ok tt ∷ ok tt ∷ [])
    × (d₁ d₂ : ChainData) × (import_all no_repetition (new chain_data) (child ∷ sibling ∷ [])
        ≡ new d₁)
    × (import_all no_repetition (new chain_data) (sibling ∷ child ∷ []) ≡ new d₂)
    × ((q : ℕ) (k : BlockId)
        → get memory_fork_tree d₁.state q k d₁.fork_tree
          ≡ get memory_fork_tree d₂.state q k d₂.fork_tree)
import_all_perm_example =
    import_all_perm no_repetition (λ b. 0) chain_data (child ∷ sibling ∷ []) (sibling ∷ child ∷ [])
      (genesis_data-IsHealthy no_repetition genesis genesis_state refl).0 forks-IsImportable
      forks-IsApart (Perm.swap sibling child [])

abbrev unsealed : Block
unsealed = record child { seal = invalid_seal; id = id 2 1 }

genesis_and_forks-IsApart : Pairwise IsApart (genesis ∷ child ∷ unsealed ∷ sibling ∷ [])
genesis_and_forks-IsApart =
    Pairwise.cons
      (λ b m.
        All-get {P = IsApart genesis} (λ c. ¬_prop) (child ∷ unsealed ∷ sibling ∷ [])
          (ground arith, (ground arith, (ground arith, tt))) m)
      (Pairwise.cons
        (λ b m.
          All-get {P = IsApart child} (λ c. ¬_prop) (unsealed ∷ sibling ∷ [])
            (ground arith, (ground arith, tt)) m)
        ((Pairwise-pair {R = IsApart} (λ a b. ¬_prop)).1 (ground arith)))

import_all-refines_example :
    let spec =
      import_view_all (genesis_view genesis genesis_state) (child ∷ unsealed ∷ sibling ∷ []) in
    (chain : Chain) × (start no_repetition genesis genesis_state ≡ returned (ok tt, chain))
    × (answers no_repetition chain (child ∷ unsealed ∷ sibling ∷ []) ≡ spec.0)
    × (d : ChainData) × (import_all no_repetition chain (child ∷ unsealed ∷ sibling ∷ []) ≡ new d)
    × ((q : ℕ) (k : BlockId) → get memory_fork_tree d.state q k d.fork_tree ≡ read spec.1 q k)
import_all-refines_example =
    import_all-refines no_repetition genesis genesis_state (child ∷ unsealed ∷ sibling ∷ []) refl
      refl genesis_and_forks-IsApart

-- What the view answers and reads there.
abbrev view_of_forks : View
view_of_forks =
    (import_view_all (genesis_view genesis genesis_state) (child ∷ unsealed ∷ sibling ∷ [])).1

answers_of_forks :
    (import_view_all (genesis_view genesis genesis_state) (child ∷ unsealed ∷ sibling ∷ [])).0
    ≡ ok tt ∷ err not_sealed ∷ ok tt ∷ []
unfolding import_view_all
answers_of_forks = refl

reads_of_forks :
    (read view_of_forks 100 (id 0 0) ≡ ok (some 100))
    × (read view_of_forks 100 (id 0 1) ≡ ok (some 200))
    × (read view_of_forks 100 (id 1 1) ≡ ok (some 300))
    × (read view_of_forks 200 (id 0 1) ≡ err invalid_ancestor_depth)
    × (read view_of_forks 100 (id 2 1) ≡ err unknown_block)
unfolding import_view_all last_change set_all HashMap.insert BTreeMap.same BTreeMap.before
reads_of_forks = (refl, refl, refl, refl, refl)
