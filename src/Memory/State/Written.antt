-- ===== src/Memory/State/Written.antt =====
-- What `MemoryFlatState::apply` (blockchain/src/memory/state.rs) writes, and what it leaves alone.
use rust_chain.Prelude.{ℕ, true, false, Option, none, some, [], ◌∷◌, ◌≡◌, arith, ◌≢◌, All}
use rust_chain.Prelude.Eq.{Eq, ◌=?◌}
use rust_chain.Prelude.HashMap
use rust_chain.Prelude.HashMap.{HashMap}
use rust_chain.Prelude.BTreeMap
use rust_chain.Prelude.BTreeMap.{IsSorted, Above, same}
use rust_chain.Memory.State.{History, record_value}

module _ {ℓ} {I V : Type ℓ} ⦃eI : Eq I⦄ where
  -- What a history holds for a block at a depth.
  abbrev pub value_at : Option (HashMap I (Option V)) → I → Option (Option V)
  value_at (some ids) a = HashMap.get a ids
  value_at none a = none

  unfoldable pub written_in : ℕ → I → History I V → Option (Option V)
  written_in n a m = value_at (BTreeMap.get n m) a

  pub written_in-record_value :
      (depth n : ℕ) (id a : I) (v : Option V) (m : History I V)
      → IsSorted m
      → written_in n a (record_value depth id v m) ≡ elim (same depth n) [
        | true ↦ elim (id =? a) [ true ↦ some v | false ↦ written_in n a m ]
        | false ↦ written_in n a m
      ]
  unfolding written_in record_value HashMap.get
  written_in-record_value depth n id a v m s = ground (
    arith,
    BTreeMap.get-modify_or depth n [] (HashMap.insert id v) m s,
    BTreeMap.same_iff depth n,
    HashMap.get-insert id a v (BTreeMap.or_default [] (BTreeMap.get depth m)),
  )

  -- A history files each value under the depth of its block, as `At` has it, in ascending order of
  -- the depths, and no depth is empty.
  abbrev pub IsFiled {κ} : (ℕ → I → Type κ) → History I V → Type (ℓ ⊔ κ)
  IsFiled At [] = Unit
  IsFiled At ((n, ids) ∷ m) = Above n m × (ids ≢ []) × All (λ e. At n e.0) ids × IsFiled At m
