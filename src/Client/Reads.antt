-- ===== src/Client/Reads.antt =====
-- What is read on a chain of blockchain/tests/simple.rs after an import.
use rust_chain.Prelude.{
  ℕ, ◌+◌, ◌%◌, ◌≡◌, ◌≢◌, refl, true, false, Option, none, some, [], ◌∷◌, arith, ok, err, ◌==◌, ◌∙◌,
  subst, All, All-imp,
}
use rust_chain.Prelude.Eq.{Eq, nat_eq}
use rust_chain.Prelude.HashMap
use rust_chain.Prelude.HashMap.{HashMap}
use rust_chain.Prelude.BTreeMap
use rust_chain.Block.{Identified}
use rust_chain.Memory.Chain.{
  MemoryForkTree, MemoryForkTreeItem, Unique, invalid_ancestor_depth, push_child, store,
  memory_fork_tree,
}
use rust_chain.Memory.Chain.Links.{IsLinked, insert-IsLinked, push_child-get_some, store-get_old}
use rust_chain.Memory.Chain.Lookup.{get-push_child, new_item}
use rust_chain.Memory.State.{History, history_of, get}
use rust_chain.Memory.State.Changes.{write_changes-IsFiled}
use rust_chain.Memory.State.Inherit.{IsAt, IsFiledBy, has_shallower, get-memory}
use rust_chain.Memory.State.Reads.{get-write_changes}
use rust_chain.Memory.State.Written.{IsFiled, written_in}
use rust_chain.Memory.Transactional.{new}
use rust_chain.Client.{block_id_eq, block_identified, BlockId, Block, ChainData, valid_seal, import}
use rust_chain.Client.Changes.{last_set, changes_of, last_change-changes_of}
use rust_chain.Client.Import.{extended, get-extended, insert-extended, import_lem}

module _ {ℓ κ μ} {I V : Type ℓ} ⦃e : Eq I⦄ where
  pub IsFiled-imp :
      (P : ℕ → I → Type κ) (Q : ℕ → I → Type μ)
      → ((n : ℕ) (a : I) → P n a → Q n a)
      → (m : History I V) → IsFiled P m
      → IsFiled Q m
  IsFiled-imp P Q f [] h = tt
  IsFiled-imp P Q f ((n, ids) ∷ m) h =
      (h.0, h.1, All-imp (λ x. f n x.0) ids h.2, IsFiled-imp P Q f m h.3)

module _ {ℓ} {B I V : Type ℓ} ⦃e : Eq I⦄ ⦃b : Identified B I⦄ where
  -- A history files nothing under an id that the tree does not have.
  get_fresh :
      (t : MemoryForkTree B I) (id : I) (n : ℕ) (ids : HashMap I (Option V))
      → HashMap.get id t.blocks ≡ none
      → All (λ x. IsAt t n x.0) ids
      → HashMap.get id ids ≡ none
  unfolding HashMap.get
  get_fresh t id n [] fresh h = refl
  get_fresh t id n ((a, v) ∷ ids) fresh h =
      let (item, g, d) = h.0 in ground (arith, e.beq_iff a id, get_fresh t id n ids fresh h.1)

  written_in_fresh :
      (t : MemoryForkTree B I) (id : I) (n : ℕ) (m : History I V)
      → HashMap.get id t.blocks ≡ none
      → IsFiled (IsAt t) m
      → written_in n id m ≡ none
  unfolding written_in BTreeMap.get
  written_in_fresh t id n [] fresh f = refl
  written_in_fresh t id n ((k, ids) ∷ m) fresh f =
      ground (arith, get_fresh t id k ids fresh f.2, written_in_fresh t id n m fresh f.3)

module _ {ℓ} {B I : Type ℓ} ⦃e : Eq I⦄ ⦃b : Identified B I⦄ where
  pub IsAt-grown :
      (t : MemoryForkTree B I) (p : I) (block : B) (depth n : ℕ) (a : I)
      → HashMap.get (b.id block) t.blocks ≡ none
      → IsAt t n a
      → IsAt (store (push_child t p (b.id block)) block depth []) n a
  IsAt-grown t p block depth n a fresh (item, g, d) =
      let (grown, g', d') = push_child-get_some t p (b.id block) a item g in
      (
        grown,
        store-get_old (push_child t p (b.id block)) block depth a grown
            (ground (arith, get-push_child t p (b.id block) (b.id block))) g',
        d' ∙ d,
      )

-- The tree is well-formed and the state is filed by its depths.
abbrev pub IsSound : ChainData → Type 0
IsSound d = IsLinked d.fork_tree × IsFiledBy d.fork_tree d.state

module _ (u : Unique) (d : ChainData) (block : Block) (parent_id : BlockId)
    (parent : MemoryForkTreeItem Block BlockId) (p : block.parent_id ≡ some parent_id)
    (g : HashMap.get parent_id d.fork_tree.blocks ≡ some parent)
    (fresh : HashMap.get block.id d.fork_tree.blocks ≡ none) (s : IsSound d) where
  pub grown-IsFiledBy : IsFiledBy (extended d block parent_id (parent.depth + 1)).fork_tree d.state
  grown-IsFiledBy key =
      IsFiled-imp (IsAt d.fork_tree)
        (IsAt (extended d block parent_id (parent.depth + 1)).fork_tree)
        (λ n a. IsAt-grown d.fork_tree parent_id block (parent.depth + 1) n a fresh)
        (history_of d.state key) (s.1 key)

  pub grown-IsLinked :
      ((parent.depth + 1) % 4 == 0) ≡ false
      → IsLinked (extended d block parent_id (parent.depth + 1)).fork_tree
  grown-IsLinked z =
      subst (λ r. IsLinked r.1) (insert-extended u d block parent_id parent p g z)
        (insert-IsLinked u d.fork_tree block fresh s.0)

  pub extended-IsSound :
      ((parent.depth + 1) % 4 == 0) ≡ false
      → IsSound (extended d block parent_id (parent.depth + 1))
  extended-IsSound z =
      let depth = parent.depth + 1 in
      (
        grown-IsLinked z,
        write_changes-IsFiled (IsAt (extended d block parent_id depth).fork_tree) depth block.id
            d.state (changes_of block.extrinsics)
            (new_item block depth [], get-extended d block parent_id depth, refl) grown-IsFiledBy,
      )

  pub get-extended_state :
      ((parent.depth + 1) % 4 == 0) ≡ false
      → (q : ℕ)
      → let d' = extended d block parent_id (parent.depth + 1) in
        get memory_fork_tree d'.state q block.id d'.fork_tree ≡ elim (last_set q block.extrinsics) [
          | some v ↦ ok (some v)
          | none ↦ elim (has_shallower (parent.depth + 1) (history_of d.state q)) [
            | true ↦ err invalid_ancestor_depth
            | false ↦ ok none
          ]
        ]
  get-extended_state z q =
      let d' = extended d block parent_id (parent.depth + 1) in
      let item = new_item block (parent.depth + 1) [] in
      let here = get-extended d block parent_id (parent.depth + 1) in
      get-write_changes d'.fork_tree d.state (changes_of block.extrinsics) q block.id item
        (grown-IsLinked z) grown-IsFiledBy here
      ∙ ground (
        arith,
        last_change-changes_of q block.extrinsics,
        get-memory d'.fork_tree d.state q block.id item (grown-IsLinked z) grown-IsFiledBy here,
        written_in_fresh d.fork_tree block.id (parent.depth + 1) (history_of d.state q) fresh
            (s.1 q),
      )

  -- On a sound chain, a sealed block with a new id, a known parent and a depth that 4 does not divide
  -- is imported: both copies of the chain take it, and are sound again. A key that the block sets
  -- then reads at it as its last setting; any other key is absent there, or, once a block nearer
  -- the genesis has set it, cannot be read.
  pub import-reads :
      block.seal ≡ valid_seal
      → (parent.depth + 1) % 4 ≢ 0
      → (d' : ChainData) × (import u (new d) block ≡ (ok tt, new d'))
        × IsSound d'
        × ((q : ℕ)
            → get memory_fork_tree d'.state q block.id d'.fork_tree
              ≡ elim (last_set q block.extrinsics) [
                | some v ↦ ok (some v)
                | none ↦ elim (has_shallower (parent.depth + 1) (history_of d.state q)) [
                  | true ↦ err invalid_ancestor_depth
                  | false ↦ ok none
                ]
              ])
  import-reads v n =
      let z : ((parent.depth + 1) % 4 == 0) ≡ false = ground arith in
      (
        extended d block parent_id (parent.depth + 1),
        import_lem u d block ∙ ground arith,
        extended-IsSound z,
        get-extended_state z,
      )
