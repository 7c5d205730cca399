-- ===== src/Memory/Transactional.antt =====
-- blockchain/src/memory/mod.rs: `MemoryTransactional`. A closure `Fn(&mut Inner) -> Result<R, E>`
-- is a function that also returns the value it leaves.
pub mod Laws
use rust_chain.Prelude.{Result, ok, err, diverged, Outcome, returned, panicked}

pub record MemoryTransactional {ℓ} (Inner : Type ℓ) : Type ℓ where
  pub first : Inner
  pub second : Inner

module _ {ℓ} {Inner : Type ℓ} where
  -- `MemoryTransactional::new`.
  unfoldable pub new : Inner → MemoryTransactional Inner
  new inner = record { first = inner; second = inner }

  -- `Deref::deref`.
  unfoldable pub deref : MemoryTransactional Inner → Inner
  deref t = t.first

  -- A write through `DerefMut::deref_mut`.
  unfoldable pub deref_mut : MemoryTransactional Inner → (Inner → Inner) → MemoryTransactional Inner
  deref_mut t write = record t { first = write t.first }

module _ {ℓ κ μ} {Inner : Type ℓ} {R : Type κ} {E : Type μ} where
  -- The inner `match` of `apply`, on the outcome of the second call.
  unfoldable pub settle_second :
      R → Inner → Result R E × Inner → Result R E × MemoryTransactional Inner
  settle_second first_ret first (ok second_ret, second) =
      (ok first_ret, record { first = first; second = second })
  settle_second first_ret first (err second_err, second) =
      (ok first_ret, record { first = first; second = first })
  settle_second first_ret first (diverged, second) =
      (diverged, record { first = first; second = second })

  -- The outer `match`, on the outcome of the first call.
  unfoldable pub settle :
      (Inner → Result R E × Inner)
      → Inner
      → Result R E × Inner
      → Result R E × MemoryTransactional Inner
  unfolding settle_second
  settle f second (ok first_ret, first) = settle_second first_ret first (f second)
  settle f second (err first_err, first) =
      (err first_err, record { first = second; second = second })
  settle f second (diverged, first) = (diverged, record { first = first; second = second })

  -- `MemoryTransactional::apply`.
  unfoldable pub apply :
      MemoryTransactional Inner
      → (Inner → Result R E × Inner)
      → Result R E × MemoryTransactional Inner
  unfolding settle
  apply t f = settle f t.second (f t.first)

  -- The same of a closure that may panic, which unwinds out of `apply`.
  unfoldable pub settle_outcome :
      (Inner → Outcome (Result R E × Inner))
      → Inner
      → Outcome (Result R E × Inner)
      → Outcome (Result R E × MemoryTransactional Inner)
  unfolding settle_second
  settle_outcome f second panicked = panicked
  settle_outcome f second (returned (ok first_ret, first)) = elim (f second) [
    | returned r ↦ returned (settle_second first_ret first r)
    | panicked ↦ panicked
  ]
  settle_outcome f second (returned (err first_err, first)) =
      returned (err first_err, record { first = second; second = second })
  settle_outcome f second (returned (diverged, first)) =
      returned (diverged, record { first = first; second = second })

  unfoldable pub apply_outcome :
      MemoryTransactional Inner
      → (Inner → Outcome (Result R E × Inner))
      → Outcome (Result R E × MemoryTransactional Inner)
  unfolding settle_outcome
  apply_outcome t f = settle_outcome f t.second (f t.first)
