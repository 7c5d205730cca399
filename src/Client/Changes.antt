-- ===== src/Client/Changes.antt =====
-- The changes that the extrinsics of a block (blockchain/tests/simple.rs) make.
use rust_chain.Prelude.{ℕ, ◌≡◌, refl, true, false, Option, none, some, List, [], ◌∷◌, arith, ◌==◌}
use rust_chain.Prelude.Eq.{Eq, nat_eq, ◌=?◌}
use rust_chain.Prelude.HashMap
use rust_chain.Prelude.HashMap.{HashMap}
use rust_chain.FlatState.{into_changeset, insert}
use rust_chain.Memory.State.Changes.{last_change}
use rust_chain.Client.{Extrinsic, sets, Overlay, execute}

-- The value that the last extrinsic on a key sets, if there is one.
unfoldable pub last_set : ℕ → List Extrinsic → Option ℕ
last_set q [] = none
last_set q (sets key value ∷ extrinsics) = elim (last_set q extrinsics) [
  | some v ↦ some v
  | none ↦ elim (key == q) [ true ↦ some value | false ↦ none ]
]

-- Sets, one after the other, in a map.
unfoldable pub set_all : HashMap ℕ (Option ℕ) → List Extrinsic → HashMap ℕ (Option ℕ)
set_all m [] = m
set_all m (sets key value ∷ extrinsics) = set_all (HashMap.insert key (some value) m) extrinsics

pub execute-set_all :
    (o : Overlay) (extrinsics : List Extrinsic)
    → into_changeset (execute o extrinsics) ≡ set_all o.changeset extrinsics
unfolding execute set_all into_changeset insert
execute-set_all o [] = refl
execute-set_all o (sets key value ∷ extrinsics) = execute-set_all (insert o key value) extrinsics

module _ {ℓ} {K V : Type ℓ} ⦃e : Eq K⦄ where
  -- No key stands twice.
  abbrev IsUnique : HashMap K (Option V) → Type ℓ
  IsUnique [] = Unit
  IsUnique ((k, v) ∷ m) = (last_change k m ≡ none) × IsUnique m

  last_change-insert :
      (k q : K) (v : Option V) (m : HashMap K (Option V))
      → IsUnique m
      → last_change q (HashMap.insert k v m)
        ≡ elim (k =? q) [ true ↦ some v | false ↦ last_change q m ]
  unfolding last_change HashMap.insert
  last_change-insert k q v [] u = refl
  last_change-insert k q v ((j, w) ∷ m) u =
      ground (arith, e.beq_iff k q, e.beq_iff j q, e.beq_iff j k, last_change-insert k q v m u.1)

  insert-IsUnique :
      (k : K) (v : Option V) (m : HashMap K (Option V))
      → IsUnique m
      → IsUnique (HashMap.insert k v m)
  unfolding last_change HashMap.insert
  insert-IsUnique k v [] u = (refl, tt)
  insert-IsUnique k v ((j, w) ∷ m) u = ground (
    arith,
    e.beq_iff j k,
    e.beq_iff k j,
    last_change-insert k j v m u.1,
    insert-IsUnique k v m u.1,
  )

last_change-set_all :
    (q : ℕ) (m : HashMap ℕ (Option ℕ)) (extrinsics : List Extrinsic)
    → IsUnique m
    → last_change q (set_all m extrinsics)
      ≡ elim (last_set q extrinsics) [ some v ↦ some (some v) | none ↦ last_change q m ]
unfolding set_all last_set
last_change-set_all q m [] u = refl
last_change-set_all q m (sets key value ∷ extrinsics) u = ground (
  arith,
  last_change-set_all q (HashMap.insert key (some value) m) extrinsics
      (insert-IsUnique key (some value) m u),
  last_change-insert key q (some value) m u,
)

-- The changes of a block's extrinsics, as a changeset.
abbrev pub changes_of : List Extrinsic → List (ℕ × Option ℕ)
changes_of extrinsics = set_all [] extrinsics

pub last_change-changes_of :
    (q : ℕ) (extrinsics : List Extrinsic)
    → last_change q (changes_of extrinsics)
      ≡ elim (last_set q extrinsics) [ some v ↦ some (some v) | none ↦ none ]
unfolding last_change
last_change-changes_of q extrinsics = last_change-set_all q [] extrinsics tt
