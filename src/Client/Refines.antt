-- ===== src/Client/Refines.antt =====
-- The chain of blockchain/tests/simple.rs against its abstract view.
use rust_chain.Prelude.{
  returned, ℕ, ◌+◌, ◌%◌, ◌==◌, if◌then◌else◌, ◌≡◌, ◌≢◌, refl, ap, ◌∙◌, false, none, some, Option,
  List, [], ◌∷◌, Mem, Result, ok, err, arith, Option-cases, Bool-cases, inl, inr,
}
use mathlib.Core.List.{Pairwise, mem-cons_self, mem-cons_of_mem}
use rust_chain.Prelude.Eq.{nat_eq}
use rust_chain.Prelude.HashMap
use rust_chain.Prelude.BTreeMap
use rust_chain.Memory.Chain.{
  Unique, unknown_parent, query, invalid_ancestor_depth, memory_fork_tree, new as new_tree,
}
use rust_chain.Memory.Chain.Lookup.{get-store}
use rust_chain.Memory.State.{get, history_of, new as new_state}
use rust_chain.Memory.State.Anywhere.{depth_at, has_history-write_changes}
use rust_chain.Memory.State.Changes.{written-write_changes}
use rust_chain.Memory.State.Shallower.{has_shallower-write_changes}
use rust_chain.Memory.State.Inherit.{has_shallower}
use rust_chain.Memory.State.Written.{written_in}
use rust_chain.Memory.Transactional.{new}
use rust_chain.Client.{
  block_id_eq, block_identified, BlockId, Block, ChainData, ChainError, Chain, import, valid_seal,
  invalid_seal, not_sealed, cant_import_genesis, fork_tree_insert,
}
use rust_chain.Client.Genesis.{start}
use rust_chain.Client.Import.{extended, import_lem, seal_cases}
use rust_chain.Client.Life.{import_all, genesis_data, genesis_data-IsHealthy, start_empty}
use rust_chain.Client.Order.{answers}
use rust_chain.Client.Reads.{IsSound, extended-IsSound}
use rust_chain.Client.View.{
  View, view, view_eq, read, add, add_changes, get-view, view-extended, IsApart,
}

-- An import on a view.
abbrev pub import_view : View → Block → Result (Unit {0}) ChainError × View
import_view v block = elim block.seal [
  | invalid_seal ↦ (err not_sealed, v)
  | valid_seal ↦ elim block.parent_id [
    | none ↦ (err cant_import_genesis, v)
    | some parent_id ↦ elim (v.depth parent_id) [
      | none ↦ (err (fork_tree_insert unknown_parent), v)
      | some depth ↦
          if (depth + 1) % 4 == 0
          then (err (fork_tree_insert (query invalid_ancestor_depth)), v)
          else (ok tt, add block (depth + 1) v)
    ]
  ]
]

unfoldable pub import_view_all : View → List Block → List (Result (Unit {0}) ChainError) × View
import_view_all v [] = ([], v)
import_view_all v (block ∷ blocks) =
    let (answer, v') = import_view v block in
    let (rest, v'') = import_view_all v' blocks in (answer ∷ rest, v'')

abbrev pub genesis_view : Block → List (ℕ × Option ℕ) → View
genesis_view genesis genesis_state = add_changes genesis.id genesis_state 0 (record {
  depth = λ k. none;
  written = λ q n k. none;
  shallower = λ q n. false;
  ever = λ q. false;
})

view-genesis :
    (genesis : Block) (genesis_state : List (ℕ × Option ℕ))
    → view (genesis_data genesis genesis_state) ≡ genesis_view genesis genesis_state
unfolding new_state new_tree history_of HashMap.get written_in BTreeMap.get has_shallower
view-genesis genesis genesis_state =
    view_eq (view (genesis_data genesis genesis_state)) (genesis_view genesis genesis_state)
      (λ k. ground (arith, get-store new_tree genesis 0 [] k))
      (λ q n k.
        written-write_changes (λ i a. Unit {0}) 0 genesis.id new_state genesis_state q n k tt
          (λ j. tt)
        ∙ ground arith)
      (λ q n. has_shallower-write_changes n 0 genesis.id new_state genesis_state q ∙ ground arith)
      (λ q. has_history-write_changes 0 genesis.id new_state genesis_state q ∙ ground arith)

genesis_view-depth :
    (genesis : Block) (genesis_state : List (ℕ × Option ℕ)) (b : Block)
    → genesis.id ≢ b.id
    → (genesis_view genesis genesis_state).depth b.id ≡ none
genesis_view-depth genesis genesis_state b ne = ground (arith, block_id_eq.beq_iff genesis.id b.id)

-- An import of a block brings no other block into the chain.
import_view-depth :
    (v : View) (block other : Block)
    → block.id ≢ other.id
    → v.depth other.id ≡ none
    → (import_view v block).1.depth other.id ≡ none
import_view-depth v block other ne n = ground (arith, n, block_id_eq.beq_iff block.id other.id)

-- What an import on two equal copies of `d` comes to.
abbrev Agrees : Unique → ChainData → Block → Type 0
Agrees u d block =
    (d' : ChainData) × (import u (new d) block ≡ ((import_view (view d) block).0, new d'))
    × IsSound d'
    × (view d' ≡ (import_view (view d) block).1)

module _ (u : Unique) (d : ChainData) (block : Block) where
  import-view : IsSound d → depth_at block.id d.fork_tree ≡ none → Agrees u d block
  import-view s fresh = elim (seal_cases block.seal) [
    | inl invalid ↦ (d, import_lem u d block ∙ ground arith, s, ground arith)
    | inr v ↦ elim (Option-cases block.parent_id) [
      | inl p ↦ (d, import_lem u d block ∙ ground arith, s, ground arith)
      | inr (parent_id, p) ↦ elim (Option-cases (HashMap.get parent_id d.fork_tree.blocks)) [
        | inl g ↦ (d, import_lem u d block ∙ ground arith, s, ground arith)
        | inr (parent, g) ↦ elim (Bool-cases ((parent.depth + 1) % 4 == 0)) [
          | inl z ↦ (d, import_lem u d block ∙ ground arith, s, ground arith)
          | inr z ↦ (
            extended d block parent_id (parent.depth + 1),
            import_lem u d block ∙ ground arith,
            extended-IsSound u d block parent_id parent p g (ground (arith, fresh)) s z,
            view-extended d block parent_id (parent.depth + 1) s ∙ ground arith,
          )
        ]
      ]
    ]
  ]

module _ (u : Unique) where
  import_all-view :
      (d : ChainData) (blocks : List Block)
      → IsSound d
      → ((b : Block) → Mem b blocks → (view d).depth b.id ≡ none)
      → Pairwise IsApart blocks
      → (answers u (new d) blocks ≡ (import_view_all (view d) blocks).0)
        × (d' : ChainData) × (import_all u (new d) blocks ≡ new d')
        × IsSound d'
        × (view d' ≡ (import_view_all (view d) blocks).1)
  unfolding answers import_all import_view_all
  import_all-view d [] s f p = (refl, d, refl, s, refl)
  import_all-view d (b ∷ bs) s f (Pairwise.cons ne p) =
      let (d₁, e, s₁, w) = import-view u d b s (f b mem-cons_self) in
      let f₁ = λ (c : Block) (m : Mem c bs).
        ap (λ v. v.depth c.id) w
        ∙ import_view-depth (view d) b c (ne c m) (f c (mem-cons_of_mem b m)) in
      let (a, d', e', s', w') = import_all-view d₁ bs s₁ f₁ p in
      let rest = ap (λ v. import_view_all v bs) w in
      (
        ap (λ r. r.0 ∷ answers u r.1 bs) e
            ∙ ap (λ l. (import_view (view d) b).0 ∷ l) (a ∙ ap (λ r. r.0) rest),
        d',
        ap (λ r. import_all u r.1 bs) e ∙ e',
        s',
        w' ∙ ap (λ r. r.1) rest,
      )

  -- A genesis without a parent and without extrinsics starts a chain; and then, whatever blocks of
  -- ids of their own are imported, in whatever order: the imports answer what they answer on the
  -- view, and every key then reads at every id what it reads there on the view.
  pub import_all-refines :
      (genesis : Block) (genesis_state : List (ℕ × Option ℕ)) (blocks : List Block)
      → genesis.parent_id ≡ none
      → genesis.extrinsics ≡ []
      → Pairwise IsApart (genesis ∷ blocks)
      → let spec = import_view_all (genesis_view genesis genesis_state) blocks in
        (chain : Chain) × (start u genesis genesis_state ≡ returned (ok tt, chain))
        × (answers u chain blocks ≡ spec.0)
        × (d : ChainData) × (import_all u chain blocks ≡ new d)
        × ((q : ℕ) (k : BlockId) → get memory_fork_tree d.state q k d.fork_tree ≡ read spec.1 q k)
  import_all-refines genesis genesis_state blocks root empty (Pairwise.cons ne p) =
      let d₀ = genesis_data genesis genesis_state in
      let same = view-genesis genesis genesis_state in
      let fresh = λ (b : Block) (m : Mem b blocks).
        ap (λ v. v.depth b.id) same ∙ genesis_view-depth genesis genesis_state b (ne b m) in
      let (a, d, e, s, w) =
        import_all-view d₀ blocks (genesis_data-IsHealthy u genesis genesis_state root).0 fresh p in
      let spec = ap (λ v. import_view_all v blocks) same in
      (
        new d₀,
        start_empty u genesis genesis_state root empty,
        a ∙ ap (λ r. r.0) spec,
        d,
        e,
        λ q k. get-view d q k s ∙ ap (λ v. read v q k) (w ∙ ap (λ r. r.1) spec),
      )
