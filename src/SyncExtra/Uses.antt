-- ===== src/SyncExtra/Uses.antt =====
-- Locks of util/sync-extra/src/lib.rs over the uses that threads make of them, in the order in which
-- they get the lock.
use rust_chain.Prelude.{true, List, [], ◌∷◌, ◌≡◌, refl, ap, map, arith}
use rust_chain.Prelude.{Outcome, returned, panicked}
use rust_chain.SyncExtra.{
  Lock, new_lock, lock_unwrap, read_unwrap, write_unwrap, hold, share, expect,
}

-- A use: `lock_unwrap`, `write_unwrap` or `read_unwrap`, and what is then done with the value.
pub data Use {ℓ κ} (T : Type ℓ) (A : Type κ) : Type (ℓ ⊔ κ) where
  locked : (T → Outcome A × T) → Use T A
  written : (T → Outcome A × T) → Use T A
  read : (T → Outcome A) → Use T A

-- What the uses after an exclusive one come to, given what they would without a panic.
abbrev pub after {κ μ} :
    {A : Type κ} {B : Type μ} → Outcome A → List B → List (Outcome A) → List (Outcome A)
after (returned a) uses outcomes = outcomes
after panicked uses outcomes = map (λ _. panicked) uses

module _ {ℓ κ} {T : Type ℓ} {A : Type κ} where
  unfoldable pub use_lock : Lock T → Use T A → Outcome A × Lock T
  unfolding lock_unwrap write_unwrap read_unwrap hold share
  use_lock lock (locked body) = hold (lock_unwrap lock) lock body
  use_lock lock (written body) = hold (write_unwrap lock) lock body
  use_lock lock (read body) = (share (read_unwrap lock) body, lock)

  unfoldable pub use_all : Lock T → List (Use T A) → List (Outcome A) × Lock T
  unfolding use_lock
  use_all lock [] = ([], lock)
  use_all lock (next ∷ uses) =
      let (outcome, lock') = use_lock lock next in
      let (outcomes, lock'') = use_all lock' uses in (outcome ∷ outcomes, lock'')

  -- What the uses of a plain value come to, when all uses after an exclusive one that panicked panic.
  unfoldable pub outcomes_of : T → List (Use T A) → List (Outcome A)
  outcomes_of value [] = []
  outcomes_of value (locked body ∷ uses) =
      (body value).0 ∷ after (body value).0 uses (outcomes_of (body value).1 uses)
  outcomes_of value (written body ∷ uses) =
      (body value).0 ∷ after (body value).0 uses (outcomes_of (body value).1 uses)
  outcomes_of value (read body ∷ uses) = body value ∷ outcomes_of value uses

  use_all_poisoned :
      (value : T) (uses : List (Use T A))
      → (use_all (record { value = value; poisoned = true }) uses).0 ≡ map (λ _. panicked) uses
  unfolding use_all lock_unwrap write_unwrap read_unwrap expect hold share
  use_all_poisoned value [] = refl
  use_all_poisoned value (locked body ∷ uses) =
      ap (λ os. panicked ∷ os) (use_all_poisoned value uses)
  use_all_poisoned value (written body ∷ uses) =
      ap (λ os. panicked ∷ os) (use_all_poisoned value uses)
  use_all_poisoned value (read body ∷ uses) = ap (λ os. panicked ∷ os) (use_all_poisoned value uses)

  -- Uses of a new lock, whichever threads they come from, come to what they would on a plain value,
  -- up to the first that panics while it holds the lock exclusively; from then on all panic.
  pub use_all-new :
      (value : T) (uses : List (Use T A))
      → (use_all (new_lock value) uses).0 ≡ outcomes_of value uses
  unfolding use_all outcomes_of lock_unwrap write_unwrap read_unwrap expect hold share
  use_all-new value [] = refl
  use_all-new value (locked body ∷ uses) =
      ground (arith, use_all_poisoned (body value).1 uses, use_all-new (body value).1 uses)
  use_all-new value (written body ∷ uses) =
      ground (arith, use_all_poisoned (body value).1 uses, use_all-new (body value).1 uses)
  use_all-new value (read body ∷ uses) = ap (λ os. body value ∷ os) (use_all-new value uses)
