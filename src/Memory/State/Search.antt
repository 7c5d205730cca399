-- ===== src/Memory/State/Search.antt =====
-- The search of `MemoryFlatState::get` (blockchain/src/memory/state.rs), one depth at a time from
-- the deepest.
use mathlib.Core.List.{reverse-cons}
use rust_chain.Prelude.{
  ℕ, Option, none, some, List, [], ◌∷◌, ◌++◌, ◌≡◌, refl, reverse, Result, ok, err, diverged, ◌>>=◌,
  leb, sym, filter-true, filter-false, le→leb, lt→leb, ◌≤◌, ◌<◌, ◌∙◌, ap,
}
use rust_chain.Prelude.Eq.{Eq}
use rust_chain.Prelude.HashMap.{HashMap}
use rust_chain.Prelude.BTreeMap
use rust_chain.Prelude.BTreeMap.{BTreeMap}
use rust_chain.ForkTree.{ForkTree}
use rust_chain.Memory.State.{History, search_ids, search_depths}

-- Go on with the next search, unless this one has found a value.
abbrev pub or_else {ℓ κ} :
    {A : Type ℓ} {E : Type κ} → Result (Option A) E → Result (Option A) E → Result (Option A) E
or_else (ok (some a)) r = ok (some a)
or_else (ok none) r = r
or_else (err e) r = err e
or_else diverged r = diverged

module _ {ℓ κ} {A : Type ℓ} {E : Type κ} where
  or_else_assoc : (x y z : Result (Option A) E) → or_else (or_else x y) z ≡ or_else x (or_else y z)
  or_else_assoc (ok (some a)) y z = refl
  or_else_assoc (ok none) y z = refl
  or_else_assoc (err e) y z = refl
  or_else_assoc diverged y z = refl

  or_else-none : (x : Result (Option A) E) → or_else x (ok none) ≡ x
  or_else-none (ok (some a)) = refl
  or_else-none (ok none) = refl
  or_else-none (err e) = refl
  or_else-none diverged = refl

module _ {ℓ} {W : Type ℓ} where
  range_to_within :
      (depth n : ℕ) (w : W) (m : BTreeMap W)
      → n ≤ depth
      → BTreeMap.range_to depth ((n, w) ∷ m) ≡ (n, w) ∷ BTreeMap.range_to depth m
  unfolding BTreeMap.range_to
  range_to_within depth n w m h = filter-true (λ e. leb e.0 depth) (n, w) m (le→leb n depth h)

  range_to_beyond :
      (depth n : ℕ) (w : W) (m : BTreeMap W)
      → depth < n
      → BTreeMap.range_to depth ((n, w) ∷ m) ≡ BTreeMap.range_to depth m
  unfolding BTreeMap.range_to
  range_to_beyond depth n w m h = filter-false (λ e. leb e.0 depth) (n, w) m (lt→leb n depth h)

module _ {ℓ κ} {T B I V : Type ℓ} {E : Type κ} ⦃eI : Eq I⦄ (ft : ForkTree T B I E) where
  search_depths-cons :
      (t : T) (id : I) (n : ℕ) (ids : HashMap I (Option V)) (rest : List (ℕ × HashMap I (Option V)))
      → search_depths ft t id ((n, ids) ∷ rest)
        ≡ or_else (search_ids ft t id ids) (search_depths ft t id rest)
  unfolding search_depths
  search_depths-cons t id n ids rest = continue (search_ids ft t id ids)
    where
      continue :
          (r : Result (Option (Option V)) E)
          → (r >>= λ found. elim found [
            | some value ↦ ok (some value)
            | none ↦ search_depths ft t id rest
          ])
            ≡ or_else r (search_depths ft t id rest)
      continue (ok (some v)) = refl
      continue (ok none) = refl
      continue (err e) = refl
      continue diverged = refl

  search_depths-append :
      (t : T) (id : I) (xs ys : List (ℕ × HashMap I (Option V)))
      → search_depths ft t id (xs ++ ys)
        ≡ or_else (search_depths ft t id xs) (search_depths ft t id ys)
  unfolding search_depths
  search_depths-append t id [] ys = refl
  search_depths-append t id ((n, ids) ∷ xs) ys =
      search_depths-cons t id n ids (xs ++ ys)
      ∙ rw (search_depths-append t id xs ys, search_depths-cons t id n ids xs)
          (sym (or_else_assoc (search_ids ft t id ids) _ _))

  -- The search of `get`, down from a depth.
  unfoldable pub search_from : T → I → ℕ → History I V → Result (Option (Option V)) E
  unfolding BTreeMap.range_to
  search_from t id depth m = search_depths ft t id (reverse (BTreeMap.range_to depth m))

  pub search_from-nil : (t : T) (id : I) (depth : ℕ) → search_from t id depth [] ≡ ok none
  unfolding search_from search_depths
  search_from-nil t id depth = refl

  search_depths-one :
      (t : T) (id : I) (n : ℕ) (ids : HashMap I (Option V))
      → search_depths ft t id ((n, ids) ∷ []) ≡ search_ids ft t id ids
  unfolding search_depths
  search_depths-one t id n ids =
      search_depths-cons t id n ids [] ∙ or_else-none (search_ids ft t id ids)

  -- The shallowest depth of a history is searched last,
  pub search_from_within :
      (t : T) (id : I) (depth n : ℕ) (ids : HashMap I (Option V)) (m : History I V)
      → n ≤ depth
      → search_from t id depth ((n, ids) ∷ m)
        ≡ or_else (search_from t id depth m) (search_ids ft t id ids)
  unfolding search_from
  search_from_within t id depth n ids m h =
      ap (λ (l : List (ℕ × HashMap I (Option V))). search_depths ft t id (reverse l))
        (range_to_within depth n ids m h)
      ∙ ap (search_depths ft t id) (reverse-cons (n, ids) (BTreeMap.range_to depth m))
      ∙ search_depths-append t id (reverse (BTreeMap.range_to depth m)) ((n, ids) ∷ [])
      ∙ ap (or_else (search_depths ft t id (reverse (BTreeMap.range_to depth m))))
          (search_depths-one t id n ids)

  -- or not at all.
  pub search_from_beyond :
      (t : T) (id : I) (depth n : ℕ) (ids : HashMap I (Option V)) (m : History I V)
      → depth < n
      → search_from t id depth ((n, ids) ∷ m) ≡ search_from t id depth m
  unfolding search_from
  search_from_beyond t id depth n ids m h =
      ap (λ (l : List (ℕ × HashMap I (Option V))). search_depths ft t id (reverse l))
        (range_to_beyond depth n ids m h)
