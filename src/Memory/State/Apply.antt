-- ===== src/Memory/State/Apply.antt =====
-- The histories that `MemoryFlatState::apply` (blockchain/src/memory/state.rs) leaves.
use rust_chain.Prelude.{
  ℕ, ◌<◌, true, false, Option, [], ◌∷◌, ◌≡◌, ◌≢◌, All, arith, inl, inr, subst, Bool-cases,
}
use rust_chain.Prelude.Eq.{Eq}
use rust_chain.Prelude.HashMap
use rust_chain.Prelude.HashMap.{HashMap}
use rust_chain.Prelude.BTreeMap
use rust_chain.Prelude.BTreeMap.{Above, IsSorted, same, same_iff, before, before_iff, modify_or}
use rust_chain.Memory.State.{History, record_value}
use rust_chain.Memory.State.Written.{IsFiled}

module _ {ℓ} {I V : Type ℓ} ⦃eI : Eq I⦄ where
  record_value_at :
      (depth n : ℕ) (id : I) (v : Option V) (ids : HashMap I (Option V)) (m : History I V)
      → same depth n ≡ true
      → record_value depth id v ((n, ids) ∷ m) ≡ (n, HashMap.insert id v ids) ∷ m
  unfolding record_value modify_or
  record_value_at depth n id v ids m h = ground arith

  record_value-before :
      (depth n : ℕ) (id : I) (v : Option V) (ids : HashMap I (Option V)) (m : History I V)
      → same depth n ≡ false
      → before depth n ≡ true
      → record_value depth id v ((n, ids) ∷ m) ≡ (depth, HashMap.insert id v []) ∷ (n, ids) ∷ m
  unfolding record_value modify_or
  record_value-before depth n id v ids m h g = ground arith

  record_value_after :
      (depth n : ℕ) (id : I) (v : Option V) (ids : HashMap I (Option V)) (m : History I V)
      → same depth n ≡ false
      → before depth n ≡ false
      → record_value depth id v ((n, ids) ∷ m) ≡ (n, ids) ∷ record_value depth id v m
  unfolding record_value modify_or
  record_value_after depth n id v ids m h g = ground arith

module _ {ℓ κ} {I V : Type ℓ} ⦃eI : Eq I⦄ (At : ℕ → I → Type κ) where
  pub IsFiled-IsSorted : (m : History I V) → IsFiled At m → IsSorted m
  IsFiled-IsSorted [] f = tt
  IsFiled-IsSorted ((n, ids) ∷ m) f = (f.0, IsFiled-IsSorted m f.3)

  insert-ne-nil :
      (id : I) (v : Option V) (ids : HashMap I (Option V)) → HashMap.insert id v ids ≢ []
  unfolding HashMap.insert
  insert-ne-nil id v [] h = cc h
  insert-ne-nil id v ((a, w) ∷ ids) h = ground arith

  insert-All :
      (n : ℕ) (id : I) (v : Option V) (ids : HashMap I (Option V))
      → At n id
      → All (λ x. At n x.0) ids
      → All (λ x. At n x.0) (HashMap.insert id v ids)
  unfolding HashMap.insert
  insert-All n id v [] h f = (h, tt)
  insert-All n id v ((a, w) ∷ ids) h f = ground (arith, insert-All n id v ids h f.1)

  record_value-Above :
      (n depth : ℕ) (id : I) (v : Option V) (m : History I V)
      → n < depth
      → Above n m
      → Above n (record_value depth id v m)
  unfolding record_value
  record_value-Above n depth id v m l h =
      BTreeMap.modify_or-Above n depth [] (HashMap.insert id v) m l h

  pub record_value-IsFiled :
      (depth : ℕ) (id : I) (v : Option V) (m : History I V)
      → At depth id
      → IsFiled At m
      → IsFiled At (record_value depth id v m)
  unfolding record_value modify_or
  record_value-IsFiled depth id v [] h f =
      (tt, insert-ne-nil id v [], insert-All depth id v [] h tt, tt)
  record_value-IsFiled depth id v ((n, ids) ∷ m) h f = elim (Bool-cases (same depth n)) [
    | inl z ↦
        let here : At n id = subst (λ k. At k id) ((same_iff depth n).0 z) h in
        rw (record_value_at depth n id v ids m z)
          (f.0, insert-ne-nil id v ids, insert-All n id v ids here f.2, f.3)
    | inr z ↦ elim (Bool-cases (before depth n)) [
      | inl y ↦
          let l = (before_iff depth n).0 y in
          rw (record_value-before depth n id v ids m z y) (
            (l, BTreeMap.Above-mono depth n m l f.0),
            insert-ne-nil id v [],
            insert-All depth id v [] h tt,
            f,
          )
      | inr y ↦
          let l : n < depth = ground (arith, same_iff depth n, before_iff depth n) in
          rw (record_value_after depth n id v ids m z y) (
            record_value-Above n depth id v m l f.0,
            f.1,
            f.2,
            record_value-IsFiled depth id v m h f.3,
          )
    ]
  ]
