-- ===== src/Client/Import.antt =====
-- What `Chain::import` of blockchain/tests/simple.rs does to the two copies of the chain's data.
use rust_chain.Prelude.{
  ℕ, ◌+◌, ◌%◌, ◌≡◌, ◌≢◌, refl, true, false, none, some, [], arith, Result, ok, err, diverged, ◌==◌,
  if◌then◌else◌, inl, inr, Option-cases, Bool-cases, ◌∙◌, ap, sym, ◌⊎◌,
}
use rust_chain.Prelude.HashMap
use rust_chain.FlatState.{overlayed, into_changeset}
use rust_chain.Client.Changes.{changes_of, execute-set_all}
use rust_chain.Memory.Chain.{
  MemoryForkTreeItem, Unique, unknown_parent, query, invalid_ancestor_depth, push_child, store,
  insert,
}
use rust_chain.Memory.Chain.Insert.{insert-child, insert-orphan}
use rust_chain.Memory.Chain.Lookup.{get-store, new_item}
use rust_chain.Memory.State.{write_changes}
use rust_chain.Memory.State.Reads.{apply_lem}
use rust_chain.Memory.Transactional.{new, apply}
use rust_chain.Memory.Transactional.Laws.{apply-new, committed}
use rust_chain.Prelude.Eq.{nat_eq, beq_refl}
use rust_chain.Client.{
  block_id_eq, block_identified, BlockId, Block, ChainData, Chain, ChainError, Seal, valid_seal,
  invalid_seal, not_sealed, cant_import_genesis, fork_tree_insert, Overlay, execute, commit,
  finish_import, import_data, import,
}

-- The data with a block at a depth, and its changes made.
abbrev pub extended : ChainData → Block → BlockId → ℕ → ChainData
extended d block parent_id depth = record {
  fork_tree = store (push_child d.fork_tree parent_id block.id) block depth [];
  state = write_changes depth block.id d.state (changes_of block.extrinsics);
}

-- What `import` comes to on two equal copies.
abbrev pub import_result : ChainData → Block → Result (Unit {0}) ChainError × Chain
import_result d block = elim block.seal [
  | invalid_seal ↦ (err not_sealed, new d)
  | valid_seal ↦ elim block.parent_id [
    | none ↦ (err cant_import_genesis, new d)
    | some parent_id ↦ elim (HashMap.get parent_id d.fork_tree.blocks) [
      | none ↦ (err (fork_tree_insert unknown_parent), new d)
      | some parent ↦
          if (parent.depth + 1) % 4 == 0
          then (err (fork_tree_insert (query invalid_ancestor_depth)), new d)
          else (ok tt, new (extended d block parent_id (parent.depth + 1)))
    ]
  ]
]

pub seal_cases : (s : Seal) → (s ≡ invalid_seal) ⊎ (s ≡ valid_seal)
seal_cases invalid_seal = inl refl
seal_cases valid_seal = inr refl

pub insert-extended :
    (u : Unique) (d : ChainData) (block : Block) (parent_id : BlockId)
    (parent : MemoryForkTreeItem Block BlockId)
    → block.parent_id ≡ some parent_id
    → HashMap.get parent_id d.fork_tree.blocks ≡ some parent
    → ((parent.depth + 1) % 4 == 0) ≡ false
    → insert u d.fork_tree block
      ≡ (ok tt, (extended d block parent_id (parent.depth + 1)).fork_tree)
insert-extended u d block parent_id parent p g z =
    insert-child u d.fork_tree block parent_id parent p g ∙ rw z

pub get-extended :
    (d : ChainData) (block : Block) (parent_id : BlockId) (depth : ℕ)
    → HashMap.get block.id (extended d block parent_id depth).fork_tree.blocks
      ≡ some (new_item block depth [])
get-extended d block parent_id depth =
    get-store (push_child d.fork_tree parent_id block.id) block depth [] block.id
    ∙ rw (beq_refl block.id)

commit_lem :
    (d : ChainData) (block : Block) (overlay : Overlay) (item : MemoryForkTreeItem Block BlockId)
    → HashMap.get block.id d.fork_tree.blocks ≡ some item
    → commit d block overlay ≡ (
      ok tt,
      record d { state = write_changes item.depth block.id d.state (into_changeset overlay) },
    )
unfolding commit
commit_lem d block overlay item g =
    rw (apply_lem d.fork_tree d.state (into_changeset overlay) block.id item g)

commit-extended :
    (d : ChainData) (block : Block) (parent_id : BlockId) (depth : ℕ)
    → let tree = store (push_child d.fork_tree parent_id block.id) block depth [] in
      commit
        (record d { fork_tree = tree })
        block
        (execute (overlayed d.state parent_id tree) block.extrinsics)
      ≡ (ok tt, extended d block parent_id depth)
unfolding overlayed
commit-extended d block parent_id depth =
    let tree = store (push_child d.fork_tree parent_id block.id) block depth [] in
    let overlay = overlayed d.state parent_id tree in
    commit_lem (record d { fork_tree = tree }) block (execute overlay block.extrinsics)
      (new_item block depth []) (get-extended d block parent_id depth)
    ∙ ap
        (λ changes. (
          ok tt,
          record d { fork_tree = tree; state = write_changes depth block.id d.state changes },
        ))
        (execute-set_all overlay block.extrinsics)

module _ (u : Unique) (d : ChainData) (block : Block) where
  import_data-genesis :
      block.parent_id ≡ none → import_data u block d ≡ (err cant_import_genesis, d)
  unfolding import_data
  import_data-genesis p = rw p

  module _ (parent_id : BlockId) (p : block.parent_id ≡ some parent_id) where
    import_data-child :
        import_data u block d ≡ finish_import block parent_id d (insert u d.fork_tree block)
    unfolding import_data
    import_data-child = ground arith

    import_data-orphan :
        HashMap.get parent_id d.fork_tree.blocks ≡ none
        → import_data u block d ≡ (err (fork_tree_insert unknown_parent), d)
    unfolding finish_import
    import_data-orphan g = import_data-child ∙ rw (insert-orphan u d.fork_tree block parent_id p g)

    module _ (parent : MemoryForkTreeItem Block BlockId)
        (g : HashMap.get parent_id d.fork_tree.blocks ≡ some parent) where
      import_data_deep :
          ((parent.depth + 1) % 4 == 0) ≡ true
          → import_data u block d ≡ (
            err (fork_tree_insert (query invalid_ancestor_depth)),
            record d { fork_tree = push_child d.fork_tree parent_id block.id },
          )
      unfolding finish_import
      import_data_deep z =
          import_data-child ∙ rw (insert-child u d.fork_tree block parent_id parent p g, z)

      import_data_taken :
          ((parent.depth + 1) % 4 == 0) ≡ false
          → import_data u block d ≡ (ok tt, extended d block parent_id (parent.depth + 1))
      unfolding finish_import
      import_data_taken z =
          import_data-child
          ∙ rw (insert-child u d.fork_tree block parent_id parent p g, z)
              (commit-extended d block parent_id (parent.depth + 1))

  import_unsealed : block.seal ≡ invalid_seal → import u (new d) block ≡ (err not_sealed, new d)
  unfolding import
  import_unsealed v = ground arith

  import_sealed :
      block.seal ≡ valid_seal → import u (new d) block ≡ apply (new d) (import_data u block)
  unfolding import
  import_sealed v = ground arith

  import-returned :
      (r : Result (Unit {0}) ChainError × ChainData)
      → block.seal ≡ valid_seal
      → import_data u block d ≡ r
      → r.0 ≢ diverged
      → import u (new d) block ≡ (r.0, new (committed d r))
  import-returned r v h n =
      import_sealed v
      ∙ apply-new d (import_data u block) (λ e. n (ap (λ x. x.0) (sym h) ∙ e))
      ∙ ap (λ x. (x.0, new (committed d x))) h

  -- On two equal copies `import` is a transaction: it answers, and leaves two equal copies. A block
  -- without a valid seal, one without a parent, one with an unknown parent and one at a depth that 4
  -- divides are each refused with an error of their own, and the chain is left as it was; any other
  -- block enters the tree below its parent, and its extrinsics are written at its depth.
  pub import_lem : import u (new d) block ≡ import_result d block
  import_lem = elim (seal_cases block.seal) [
    | inl invalid ↦ import_unsealed invalid ∙ ground arith
    | inr v ↦ elim (Option-cases block.parent_id) [
      | inl p ↦ import-returned _ v (import_data-genesis p) (λ e. cc) ∙ ground arith
      | inr (parent_id, p) ↦ elim (Option-cases (HashMap.get parent_id d.fork_tree.blocks)) [
        | inl g ↦ import-returned _ v (import_data-orphan parent_id p g) (λ e. cc) ∙ ground arith
        | inr (parent, g) ↦ elim (Bool-cases ((parent.depth + 1) % 4 == 0)) [
          | inl z ↦
              import-returned _ v (import_data_deep parent_id p parent g z) (λ e. cc) ∙ ground arith
          | inr z ↦
              import-returned _ v (import_data_taken parent_id p parent g z) (λ e. cc)
              ∙ ground arith
        ]
      ]
    ]
  ]

  -- To prove of the data that `import` leaves what holds on each of its branches.
  pub import_cases {κ} :
      (P : ChainData → Type κ)
      → P d
      → ((parent_id : BlockId) (parent : MemoryForkTreeItem Block BlockId)
          → block.parent_id ≡ some parent_id
          → HashMap.get parent_id d.fork_tree.blocks ≡ some parent
          → ((parent.depth + 1) % 4 == 0) ≡ false
          → P (extended d block parent_id (parent.depth + 1)))
      → (d' : ChainData) × ((import u (new d) block).1 ≡ new d') × P d'
  import_cases P old taken = elim (seal_cases block.seal) [
    | inl invalid ↦ (d, ap (λ r. r.1) import_lem ∙ ground arith, old)
    | inr v ↦ elim (Option-cases block.parent_id) [
      | inl p ↦ (d, ap (λ r. r.1) import_lem ∙ ground arith, old)
      | inr (parent_id, p) ↦ elim (Option-cases (HashMap.get parent_id d.fork_tree.blocks)) [
        | inl g ↦ (d, ap (λ r. r.1) import_lem ∙ ground arith, old)
        | inr (parent, g) ↦ elim (Bool-cases ((parent.depth + 1) % 4 == 0)) [
          | inl z ↦ (d, ap (λ r. r.1) import_lem ∙ ground arith, old)
          | inr z ↦ (
            extended d block parent_id (parent.depth + 1),
            ap (λ r. r.1) import_lem ∙ ground arith,
            taken parent_id parent p g z,
          )
        ]
      ]
    ]
  ]
