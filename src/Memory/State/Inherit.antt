-- ===== src/Memory/State/Inherit.antt =====
-- What `MemoryFlatState::get` (blockchain/src/memory/state.rs) reads on a `MemoryForkTree`.
use rust_chain.Prelude.{
  ℕ, Bool, true, false, ◌||◌, Option, none, some, [], ◌∷◌, ◌≡◌, ◌≢◌, ◌≤◌, refl, Result, ok, err,
  All, arith, ◌∙◌, Nat-cases, inl, inr, subst, Option-cases,
}
use mathlib.Core.Option
use rust_chain.Prelude.Eq.{Eq, ◌=?◌}
use rust_chain.Prelude.HashMap
use rust_chain.Prelude.HashMap.{HashMap}
use rust_chain.Prelude.BTreeMap
use rust_chain.Prelude.BTreeMap.{
  IsSorted, BTreeMap, Above, get-Above, before, before_iff, same, same_iff,
}
use rust_chain.Block.{Identified}
use rust_chain.ForkTree.{is_ancestor}
use rust_chain.Memory.Chain.{
  MemoryForkTree, MemoryForkTreeItem, QueryError, invalid_ancestor_depth, memory_fork_tree,
}
use rust_chain.Memory.Chain.Ancestor.{is_ancestor-memory, block_depth_lem}
use rust_chain.Memory.Chain.Links.{IsLinked}
use rust_chain.Memory.State.{History, MemoryFlatState, search_ids, get_history, get, history_of}
use rust_chain.Memory.State.Search.{
  search_from, search_from-nil, search_from_within, search_from_beyond,
}
use rust_chain.Memory.State.Written.{written_in, IsFiled}

module _ {ℓ} {B I : Type ℓ} ⦃e : Eq I⦄ ⦃b : Identified B I⦄ where
  -- The tree has the block at the depth.
  abbrev pub IsAt : MemoryForkTree B I → ℕ → I → Type ℓ
  IsAt t n a =
      (item : MemoryForkTreeItem B I) × (HashMap.get a t.blocks ≡ some item) × (item.depth ≡ n)

-- Whether a history has a value at a depth above (nearer the genesis than) the given one.
unfoldable pub has_shallower {ℓ} : {W : Type ℓ} → ℕ → BTreeMap W → Bool
has_shallower depth [] = false
has_shallower depth ((n, w) ∷ m) = before n depth || has_shallower depth m

has_shallower_below {ℓ} :
    {W : Type ℓ} (depth n : ℕ) (m : BTreeMap W)
    → Above n m
    → depth ≤ n
    → has_shallower depth m ≡ false
unfolding has_shallower
has_shallower_below depth n [] h le = refl
has_shallower_below depth n ((k, w) ∷ m) h le =
    ground (arith, before_iff k depth, has_shallower_below depth n m h.1)

module _ {ℓ} {B I : Type ℓ} ⦃e : Eq I⦄ ⦃b : Identified B I⦄ (t : MemoryForkTree B I)
    (l : IsLinked t) (id : I) (item : MemoryForkTreeItem B I)
    (g : HashMap.get id t.blocks ≡ some item) where
  is_ancestor_beside :
      (a : I) → IsAt t item.depth a → is_ancestor memory_fork_tree t id a ≡ ok (a =? id)
  is_ancestor_beside a (other, h, d) =
      is_ancestor-memory t id a item other g h
      ∙ ground (arith, l.keyed id item g, e.beq_iff id a, e.beq_iff a id)

  is_ancestor_apart :
      (n : ℕ) (a : I)
      → IsAt t n a
      → n ≢ item.depth
      → is_ancestor memory_fork_tree t id a ≡ err invalid_ancestor_depth
  is_ancestor_apart n a (other, h, d) ne = is_ancestor-memory t id a item other g h ∙ ground arith

  module _ {V : Type ℓ} where
    search_ids_beside :
        (ids : HashMap I (Option V))
        → All (λ x. IsAt t item.depth x.0) ids
        → search_ids memory_fork_tree t id ids ≡ ok (HashMap.get id ids)
    unfolding search_ids HashMap.get
    search_ids_beside [] h = refl
    search_ids_beside ((a, v) ∷ ids) h =
        rw (is_ancestor_beside a h.0) (ground (arith, search_ids_beside ids h.1))

    search_ids_apart :
        (n : ℕ) (ids : HashMap I (Option V))
        → ids ≢ []
        → All (λ x. IsAt t n x.0) ids
        → n ≢ item.depth
        → search_ids memory_fork_tree t id ids ≡ err invalid_ancestor_depth
    unfolding search_ids
    search_ids_apart n [] full h ne = absurd (full refl)
    search_ids_apart n ((a, v) ∷ ids) full h ne = rw (is_ancestor_apart n a h.0 ne)

    -- The search's answer, read off the history.
    abbrev search_result : History I V → Result (Option (Option V)) QueryError
    search_result m = elim (written_in item.depth id m) [
      | some v ↦ ok (some v)
      | none ↦ elim (has_shallower item.depth m) [
        | true ↦ err invalid_ancestor_depth
        | false ↦ ok none
      ]
    ]

    search_from-memory :
        (m : History I V)
        → IsFiled (IsAt t) m
        → search_from memory_fork_tree t id item.depth m ≡ search_result m
    unfolding written_in has_shallower BTreeMap.get
    search_from-memory [] f = search_from-nil memory_fork_tree t id item.depth
    search_from-memory ((n, ids) ∷ m) f = elim (Nat-cases n item.depth) [
      | inl above ↦
          search_from_within memory_fork_tree t id item.depth n ids m (omega arith)
          ∙ rw (search_from-memory m f.3, search_ids_apart n ids f.1 f.2 (omega arith))
              (ground (arith, same_iff n item.depth, before_iff n item.depth))
      | inr (inl level) ↦
          search_from_within memory_fork_tree t id item.depth n ids m (omega arith)
          ∙ rw
              (
                search_from-memory m f.3,
                search_ids_beside ids (subst (λ (k : ℕ). All (λ x. IsAt t k x.0) ids) level f.2),
              )
              (ground (
                arith,
                same_iff n item.depth,
                before_iff n item.depth,
                get-Above n item.depth m f.0,
                has_shallower_below item.depth n m f.0,
              ))
      | inr (inr beneath) ↦
          search_from_beyond memory_fork_tree t id item.depth n ids m beneath
          ∙ search_from-memory m f.3
          ∙ ground (arith, same_iff n item.depth, before_iff n item.depth)
    ]

    get_history-memory :
        (m : History I V)
        → IsFiled (IsAt t) m
        → get_history memory_fork_tree t id m ≡ elim (written_in item.depth id m) [
          | some v ↦ ok v
          | none ↦ elim (has_shallower item.depth m) [
            | true ↦ err invalid_ancestor_depth
            | false ↦ ok none
          ]
        ]
    unfolding get_history search_from
    get_history-memory m f =
        rw (block_depth_lem t id item g) (ground (arith, search_from-memory m f))

module _ {ℓ} {B I K V : Type ℓ} ⦃eI : Eq I⦄ ⦃eK : Eq K⦄ ⦃b : Identified B I⦄ where
  -- Every history of the state is filed by the depths of the tree.
  abbrev pub IsFiledBy : MemoryForkTree B I → MemoryFlatState K V I → Type ℓ
  IsFiledBy t s = (key : K) → IsFiled (IsAt t) (history_of s key)

  -- On a memory tree `get` reads what was written at the block itself. A key that was not written
  -- there reads as absent if nothing was written to it nearer the genesis, and otherwise `get`
  -- fails, whether or not the write belongs to an ancestor.
  pub get-memory :
      (t : MemoryForkTree B I) (s : MemoryFlatState K V I) (key : K) (id : I)
      (item : MemoryForkTreeItem B I)
      → IsLinked t
      → IsFiledBy t s
      → HashMap.get id t.blocks ≡ some item
      → get memory_fork_tree s key id t ≡ elim (written_in item.depth id (history_of s key)) [
        | some v ↦ ok v
        | none ↦ elim (has_shallower item.depth (history_of s key)) [
          | true ↦ err invalid_ancestor_depth
          | false ↦ ok none
        ]
      ]
  unfolding get history_of has_shallower written_in BTreeMap.get
  get-memory t s key id item l f g = elim (Option-cases (HashMap.get key s.state)) [
    | inl n ↦ ground arith
    | inr (m, h) ↦ ground (arith, get_history-memory t l id item g m (filed m h))
  ]
    where
      filed : (m : History I V) → HashMap.get key s.state ≡ some m → IsFiled (IsAt t) m
      filed m h = subst (λ o. IsFiled (IsAt t) (Option.get_or o [])) h (f key)
