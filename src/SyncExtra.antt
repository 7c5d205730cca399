-- ===== src/SyncExtra.antt =====
-- util/sync-extra/src/lib.rs: locks of the standard library that are taken or panic.
pub mod Uses
use rust_chain.Prelude.{Outcome, returned, panicked, Bool, true, false, if◌then◌else◌}

-- `std::sync::Mutex` and `RwLock`, between two uses: a lock is poisoned once a use of it on which it
-- was held exclusively has panicked.
pub record Lock {ℓ} (T : Type ℓ) : Type ℓ where
  pub value : T
  pub poisoned : Bool

abbrev pub new_lock {ℓ} : {T : Type ℓ} → T → Lock T
new_lock value = record { value = value; poisoned = false }

module _ {ℓ} {T : Type ℓ} where
  -- `.expect(…)` on the result of taking a lock, which is an error on a poisoned one: what the guard
  -- gives access to.
  unfoldable pub expect : Lock T → Outcome T
  expect lock = if lock.poisoned then panicked else returned lock.value

  -- `MutexExtra::lock_unwrap`, `RwLockExtra::read_unwrap` and `RwLockExtra::write_unwrap`.
  unfoldable pub lock_unwrap : Lock T → Outcome T
  unfolding expect
  lock_unwrap mutex = expect mutex

  unfoldable pub read_unwrap : Lock T → Outcome T
  unfolding expect
  read_unwrap lock = expect lock

  unfoldable pub write_unwrap : Lock T → Outcome T
  unfolding expect
  write_unwrap lock = expect lock

  -- What is done while an exclusive guard is held, and its drop: a panic leaves the value as it was when it
  -- happened, and poisons the lock.
  unfoldable pub hold {κ} :
      {A : Type κ} → Outcome T → Lock T → (T → Outcome A × T) → Outcome A × Lock T
  hold (returned value) lock body = elim (body value).0 [
    | returned a ↦ (returned a, record lock { value = (body value).1 })
    | panicked ↦ (panicked, record { value = (body value).1; poisoned = true })
  ]
  hold panicked lock body = (panicked, lock)

  -- What is done while a shared guard is held: a panic then does not poison.
  unfoldable pub share {κ} : {A : Type κ} → Outcome T → (T → Outcome A) → Outcome A
  share (returned value) body = body value
  share panicked body = panicked
