-- ===== src/Memory/State/Nearest.antt =====
-- `MemoryFlatState::get` (blockchain/src/memory/state.rs) over a fork tree that keeps the promises
-- of the trait `ForkTree` (blockchain/src/chain.rs).
use rust_chain.Prelude.{
  ℕ, ◌≤◌, ◌<◌, Bool, true, false, Option, none, some, [], ◌∷◌, ◌≡◌, ◌≢◌, refl, ok, arith, inl, inr,
  ◌∙◌, All, Nat-cases, sym, Bool-cases,
}
use native.Mathlib.Decide.{ℕ_discrete, dec_le}
use rust_chain.Prelude.Eq.{Eq, beq_refl}
use rust_chain.Prelude.HashMap
use rust_chain.Prelude.HashMap.{HashMap}
use rust_chain.Prelude.BTreeMap
use rust_chain.Prelude.BTreeMap.{Above, same, same_iff, get-Above}
use rust_chain.ForkTree.{ForkTree, is_ancestor}
use rust_chain.Memory.State.{History, search_ids}
use rust_chain.Memory.State.Search.{
  or_else, search_from, search_from-nil, search_from_within, search_from_beyond,
}
use rust_chain.Memory.State.Written.{written_in, IsFiled}

module _ {ℓ} {I V : Type ℓ} ⦃e : Eq I⦄ where
  pub written_in-cons_eq :
      (n k : ℕ) (a : I) (ids : HashMap I (Option V)) (m : History I V)
      → n ≡ k
      → written_in k a ((n, ids) ∷ m) ≡ HashMap.get a ids
  unfolding written_in BTreeMap.get
  written_in-cons_eq n k a ids m h = ground (arith, same_iff n k)

  pub written_in-cons_ne :
      (n k : ℕ) (a : I) (ids : HashMap I (Option V)) (m : History I V)
      → n ≢ k
      → written_in k a ((n, ids) ∷ m) ≡ written_in k a m
  unfolding written_in BTreeMap.get
  written_in-cons_ne n k a ids m h = ground (arith, same_iff n k)

  written_in-Above :
      (n k : ℕ) (a : I) (v : Option V) (m : History I V)
      → Above n m
      → written_in k a m ≡ some v
      → n < k
  unfolding written_in
  written_in-Above n k a v m h w = elim (Nat-cases n k) [
    | inl lt ↦ lt
    | inr (inl eq) ↦ absurd (ground (arith, get-Above n k m h))
    | inr (inr gt) ↦ absurd (ground (arith, get-Above n k m h))
  ]

-- What the trait promises for one tree: a depth for each block that it knows, and for each pair
-- of blocks whether the second is an ancestor of the first, or is the first.
pub record Ancestry {ℓ κ} {T B I : Type ℓ} {E : Type κ} ⦃e : Eq I⦄ (ft : ForkTree T B I E) (t : T)
    : Type (ℓ ⊔ κ ⊔ 1) where
  pub IsKnown : I → Type 0
  pub depth_of : I → ℕ
  pub ancestor : I → I → Bool
  pub block_depth_lem : (a : I) → IsKnown a → ft.block_depth t a ≡ ok (depth_of a)
  pub is_ancestor_lem :
      (id a : I)
      → IsKnown id
      → IsKnown a
      → depth_of a ≤ depth_of id
      → is_ancestor ft t id a ≡ ok (ancestor id a)
  pub depth_le : (id a : I) → ancestor id a ≡ true → depth_of a ≤ depth_of id
  pub one_at_depth :
      (id a c : I) → ancestor id a ≡ true → ancestor id c ≡ true → depth_of a ≡ depth_of c → a ≡ c

module _ {ℓ κ} {T B I : Type ℓ} {E : Type κ} ⦃e : Eq I⦄ {ft : ForkTree T B I E} {t : T}
    (p : Ancestry ft t) where
  abbrev pub IsKnownAt : ℕ → I → Type 0
  IsKnownAt n a = p.IsKnown a × (p.depth_of a ≡ n)

module _ {ℓ κ} {T B I V : Type ℓ} {E : Type κ} ⦃e : Eq I⦄ {ft : ForkTree T B I E} {t : T}
    (p : Ancestry ft t) where
  open p use {IsKnown, depth_of, ancestor, is_ancestor_lem, depth_le, one_at_depth}

  -- `IsNearest id m r`: `r` is the value that the history holds for the deepest of the ancestors of
  -- `id` that it has a value for, or there is no such ancestor.
  abbrev pub IsNearest : I → History I V → Option (Option V) → Type ℓ
  IsNearest id m none = (a : I) → ancestor id a ≡ true → written_in (depth_of a) a m ≡ none
  IsNearest id m (some v) =
      (a : I) × (ancestor id a ≡ true)
      × (written_in (depth_of a) a m ≡ some v)
      × ((c : I)
          → ancestor id c ≡ true
          → depth_of a < depth_of c
          → written_in (depth_of c) c m ≡ none)

  abbrev IsFirst : I → ℕ → HashMap I (Option V) → Option (Option V) → Type ℓ
  IsFirst id n ids none = (a : I) → ancestor id a ≡ true → HashMap.get a ids ≡ none
  IsFirst id n ids (some v) =
      (a : I) × (ancestor id a ≡ true) × (depth_of a ≡ n) × (HashMap.get a ids ≡ some v)

  search_ids-IsFirst :
      (id : I) (n : ℕ) (ids : HashMap I (Option V))
      → IsKnown id
      → n ≤ depth_of id
      → All (λ x. IsKnownAt p n x.0) ids
      → (r : Option (Option V)) × (search_ids ft t id ids ≡ ok r) × IsFirst id n ids r
  unfolding search_ids HashMap.get
  search_ids-IsFirst id n [] k l h = (none, refl, λ a q. refl)
  search_ids-IsFirst id n ((j, w) ∷ ids) k l h = elim (Bool-cases (ancestor id j)) [
    | inl z ↦ (
      some w,
      rw (is_ancestor_lem id j k h.0.0 (omega (arith, h.0.1)), z),
      (j, z, h.0.1, ground (arith, beq_refl j)),
    )
    | inr z ↦
        let (r, found, first) = search_ids-IsFirst id n ids k l h.1 in
        (r, rw (is_ancestor_lem id j k h.0.0 (omega (arith, h.0.1)), z) found, skip r first z)
  ]
    where
      skip :
          (r : Option (Option V))
          → IsFirst id n ids r
          → ancestor id j ≡ false
          → IsFirst id n ((j, w) ∷ ids) r
      skip none first z = λ a q. ground (arith, first a q, e.beq_iff j a)
      skip (some v) (a, q, d, found) z = (a, q, d, ground (arith, e.beq_iff j a))

  -- One more depth, the shallowest, after a search of the others.
  IsNearest-cons :
      (id : I) (n : ℕ) (ids : HashMap I (Option V)) (m : History I V) (r : Option (Option V))
      → Above n m
      → IsNearest id m r
      → (first : Option (Option V)) → IsFirst id n ids first
      → IsNearest id ((n, ids) ∷ m) (elim r [ some v ↦ some v | none ↦ first ])
  IsNearest-cons id n ids m (some v) h (a, q, w, deepest) first f =
      let l = written_in-Above n (depth_of a) a v m h w in
      (
        a,
        q,
        written_in-cons_ne n (depth_of a) a ids m (omega arith) ∙ w,
        λ c qc lt. written_in-cons_ne n (depth_of c) c ids m (omega arith) ∙ deepest c qc lt,
      )
  IsNearest-cons id n ids m none h nothing (some v) (a, q, d, found) = (
    a,
    q,
    written_in-cons_eq n (depth_of a) a ids m (sym d) ∙ found,
    λ c qc lt. written_in-cons_ne n (depth_of c) c ids m (omega arith) ∙ nothing c qc,
  )
  IsNearest-cons id n ids m none h nothing none f = λ a q. elim (ℕ_discrete n (depth_of a)) [
    | yes same_depth ↦ written_in-cons_eq n (depth_of a) a ids m same_depth ∙ f a q
    | no other ↦ written_in-cons_ne n (depth_of a) a ids m other ∙ nothing a q
  ]

  -- A depth below the block's holds no ancestor.
  IsNearest-beyond :
      (id : I) (n : ℕ) (ids : HashMap I (Option V)) (m : History I V) (r : Option (Option V))
      → Above n m
      → depth_of id < n
      → IsNearest id m r
      → IsNearest id ((n, ids) ∷ m) r
  IsNearest-beyond id n ids m (some v) h lt (a, q, w, deepest) = (
    a,
    q,
    written_in-cons_ne n (depth_of a) a ids m (omega (arith, depth_le id a q)) ∙ w,
    λ c qc l.
        written_in-cons_ne n (depth_of c) c ids m (omega (arith, depth_le id c qc))
        ∙ deepest c qc l,
  )
  IsNearest-beyond id n ids m none h lt nothing = λ a q.
      written_in-cons_ne n (depth_of a) a ids m (omega (arith, depth_le id a q)) ∙ nothing a q

  pub search_from-IsNearest :
      (id : I) (m : History I V)
      → IsKnown id
      → IsFiled (IsKnownAt p) m
      → (r : Option (Option V)) × (search_from ft t id (depth_of id) m ≡ ok r) × IsNearest id m r
  unfolding written_in BTreeMap.get
  search_from-IsNearest id [] k f = (none, search_from-nil ft t id (depth_of id), λ a q. refl)
  search_from-IsNearest id ((n, ids) ∷ m) k f =
      let (r, found, nearest) = search_from-IsNearest id m k f.3 in
      elim (dec_le n (depth_of id)) [
        | yes within ↦
            let (first, head, is_first) = search_ids-IsFirst id n ids k within f.2 in
            (
              elim r [ some v ↦ some v | none ↦ first ],
              search_from_within ft t id (depth_of id) n ids m within
                  ∙ rw (found, head) (settle r first),
              IsNearest-cons id n ids m r f.0 nearest first is_first,
            )
        | no beyond ↦ (
          r,
          search_from_beyond ft t id (depth_of id) n ids m (omega arith) ∙ found,
          IsNearest-beyond id n ids m r f.0 (omega arith) nearest,
        )
      ]
    where
      settle :
          (r first : Option (Option V))
          → or_else {E = E} (ok r) (ok first) ≡ ok (elim r [ some v ↦ some v | none ↦ first ])
      settle (some v) first = refl
      settle none first = refl
