-- ===== src/Memory/State/Shallower.antt =====
-- Whether `MemoryFlatState::apply` (blockchain/src/memory/state.rs) puts a value above a depth.
use rust_chain.Prelude.{ℕ, ◌||◌, none, some, Option, List, [], ◌∷◌, ◌≡◌, refl, arith, ◌∙◌}
use rust_chain.Prelude.Eq.{Eq}
use rust_chain.Prelude.HashMap
use rust_chain.Prelude.BTreeMap
use rust_chain.Prelude.BTreeMap.{BTreeMap, before, before_iff, same_iff}
use rust_chain.Memory.State.{MemoryFlatState, record_value, history_of, write_change, write_changes}
use rust_chain.Memory.State.Changes.{history_of-write_change, last_change}
use rust_chain.Memory.State.Inherit.{has_shallower}

has_shallower-modify_or {ℓ} :
    {W : Type ℓ} (n q : ℕ) (default : W) (f : W → W) (m : BTreeMap W)
    → has_shallower n (BTreeMap.modify_or q default f m) ≡ (before q n || has_shallower n m)
unfolding has_shallower BTreeMap.modify_or
has_shallower-modify_or n q default f [] = ground (arith, before_iff q n)
has_shallower-modify_or n q default f ((k, v) ∷ m) = ground (
  arith,
  before_iff q n,
  before_iff k n,
  before_iff q k,
  same_iff q k,
  has_shallower-modify_or n q default f m,
)

module _ {ℓ} {I K V : Type ℓ} ⦃eI : Eq I⦄ ⦃eK : Eq K⦄ where
  -- A changeset at a depth adds a value there for each key that it names.
  pub has_shallower-write_changes :
      (n depth : ℕ) (id : I) (s : MemoryFlatState K V I) (changes : List (K × Option V)) (q : K)
      → has_shallower n (history_of (write_changes depth id s changes) q)
        ≡ elim (last_change q changes) [
          | some v ↦ before depth n || has_shallower n (history_of s q)
          | none ↦ has_shallower n (history_of s q)
        ]
  unfolding write_changes record_value last_change
  has_shallower-write_changes n depth id s [] q = refl
  has_shallower-write_changes n depth id s ((k, v) ∷ changes) q =
      has_shallower-write_changes n depth id (write_change depth id s (k, v)) changes q
      ∙ ground (
        arith,
        eK.beq_iff k q,
        history_of-write_change depth id s k q v,
        has_shallower-modify_or n depth [] (HashMap.insert id v) (history_of s k),
      )
