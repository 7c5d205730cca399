-- ===== src/Memory/State/Changes.antt =====
-- A changeset as `MemoryFlatState::apply` (blockchain/src/memory/state.rs) writes it.
use rust_chain.Prelude.{
  ℕ, true, false, Option, none, some, List, [], ◌∷◌, ◌≡◌, refl, arith, inl, inr, Bool-cases,
}
use rust_chain.Prelude.Eq.{Eq, ◌=?◌}
use rust_chain.Prelude.HashMap
use rust_chain.Prelude.BTreeMap.{same}
use rust_chain.Memory.State.{MemoryFlatState, record_value, history_of, write_change, write_changes}
use rust_chain.Memory.State.Apply.{IsFiled-IsSorted, record_value-IsFiled}
use rust_chain.Memory.State.Written.{written_in, written_in-record_value, IsFiled}

module _ {ℓ} {K V : Type ℓ} ⦃eK : Eq K⦄ where
  -- The last change of a key in a changeset.
  unfoldable pub last_change : K → List (K × Option V) → Option (Option V)
  last_change q [] = none
  last_change q ((k, v) ∷ changes) = elim (last_change q changes) [
    | some w ↦ some w
    | none ↦ elim (k =? q) [ true ↦ some v | false ↦ none ]
  ]

module _ {ℓ} {I K V : Type ℓ} ⦃eI : Eq I⦄ ⦃eK : Eq K⦄ where
  pub history_of-write_change :
      (depth : ℕ) (id : I) (s : MemoryFlatState K V I) (k q : K) (v : Option V)
      → history_of (write_change depth id s (k, v)) q
        ≡ elim (k =? q) [ true ↦ record_value depth id v (history_of s k) | false ↦ history_of s q ]
  unfolding history_of write_change
  history_of-write_change depth id s k q v =
      ground (arith, HashMap.get-insert k q (record_value depth id v (history_of s k)) s.state)

  -- A key that the changeset does not name keeps its history.
  pub history_of-write_changes :
      (depth : ℕ) (id : I) (s : MemoryFlatState K V I) (changes : List (K × Option V)) (q : K)
      → last_change q changes ≡ none
      → history_of (write_changes depth id s changes) q ≡ history_of s q
  unfolding last_change write_changes
  history_of-write_changes depth id s [] q h = refl
  history_of-write_changes depth id s ((k, v) ∷ changes) q h = ground (
    arith,
    history_of-write_change depth id s k q v,
    history_of-write_changes depth id (write_change depth id s (k, v)) changes q,
  )

module _ {ℓ κ} {I K V : Type ℓ} ⦃eI : Eq I⦄ ⦃eK : Eq K⦄ (At : ℕ → I → Type κ) where
  write_change-IsFiled :
      (depth : ℕ) (id : I) (s : MemoryFlatState K V I) (k : K) (v : Option V)
      → At depth id
      → ((q : K) → IsFiled At (history_of s q))
      → (q : K) → IsFiled At (history_of (write_change depth id s (k, v)) q)
  write_change-IsFiled depth id s k v h f q =
      rw (history_of-write_change depth id s k q v) (elim (Bool-cases (k =? q)) [
        | inl z ↦ rw z (record_value-IsFiled At depth id v (history_of s k) h (f k))
        | inr z ↦ rw z (f q)
      ])

  -- `apply` keeps every history filed.
  pub write_changes-IsFiled :
      (depth : ℕ) (id : I) (s : MemoryFlatState K V I) (changes : List (K × Option V))
      → At depth id
      → ((q : K) → IsFiled At (history_of s q))
      → (q : K) → IsFiled At (history_of (write_changes depth id s changes) q)
  unfolding write_changes
  write_changes-IsFiled depth id s [] h f q = f q
  write_changes-IsFiled depth id s ((k, v) ∷ changes) h f q =
      write_changes-IsFiled depth id (write_change depth id s (k, v)) changes h
        (write_change-IsFiled depth id s k v h f) q

  written-write_change :
      (depth : ℕ) (id : I) (s : MemoryFlatState K V I) (k : K) (v : Option V) (q : K) (n : ℕ)
      (a : I)
      → ((j : K) → IsFiled At (history_of s j))
      → written_in n a (history_of (write_change depth id s (k, v)) q) ≡ elim (k =? q) [
        | true ↦ elim (same depth n) [
          | true ↦ elim (id =? a) [ true ↦ some v | false ↦ written_in n a (history_of s q) ]
          | false ↦ written_in n a (history_of s q)
        ]
        | false ↦ written_in n a (history_of s q)
      ]
  written-write_change depth id s k v q n a f = ground (
    arith,
    history_of-write_change depth id s k q v,
    eK.beq_iff k q,
    written_in-record_value depth n id a v (history_of s k)
        (IsFiled-IsSorted At (history_of s k) (f k)),
  )

  -- `apply` writes the last change of each key of the changeset at its block and depth, and
  -- nothing else.
  pub written-write_changes :
      (depth : ℕ) (id : I) (s : MemoryFlatState K V I) (changes : List (K × Option V)) (q : K)
      (n : ℕ) (a : I)
      → At depth id
      → ((j : K) → IsFiled At (history_of s j))
      → written_in n a (history_of (write_changes depth id s changes) q)
        ≡ elim (last_change q changes) [
          | none ↦ written_in n a (history_of s q)
          | some v ↦ elim (same depth n) [
            | true ↦ elim (id =? a) [ true ↦ some v | false ↦ written_in n a (history_of s q) ]
            | false ↦ written_in n a (history_of s q)
          ]
        ]
  unfolding last_change write_changes
  written-write_changes depth id s [] q n a h f = refl
  written-write_changes depth id s ((k, v) ∷ changes) q n a h f = ground (
    arith,
    written-write_change depth id s k v q n a f,
    written-write_changes depth id (write_change depth id s (k, v)) changes q n a h
        (write_change-IsFiled depth id s k v h f),
  )
