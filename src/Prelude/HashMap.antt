-- ===== src/Prelude/HashMap.antt =====
-- `std::collections::HashMap` as an association list. A new key goes to the end; nothing that the
-- other modules prove depends on the order in which the entries are visited unless it says so.
use mathlib.Core.Path.{◌≡◌, refl}
use mathlib.Core.Logic.{◌≢◌}
use mathlib.Core.Bool.{true, false}
use mathlib.Core.List.{List, [], ◌∷◌}
use mathlib.Core.Option
use mathlib.Core.Option.{Option, none, some}
use native.Mathlib.Omega.{arith}
use rust_chain.Prelude.Eq.{Eq, ◌=?◌, beq_refl}

abbrev pub HashMap {ℓ κ} : Type ℓ → Type κ → Type (ℓ ⊔ κ)
HashMap K V = List (K × V)

module _ {ℓ κ} {K : Type ℓ} {V : Type κ} ⦃e : Eq K⦄ where
  unfoldable pub get : K → HashMap K V → Option V
  get q [] = none
  get q ((k, v) ∷ m) = elim (k =? q) [ true ↦ some v | false ↦ get q m ]

  unfoldable pub insert : K → V → HashMap K V → HashMap K V
  insert q w [] = (q, w) ∷ []
  insert q w ((k, v) ∷ m) = elim (k =? q) [ true ↦ (k, w) ∷ m | false ↦ (k, v) ∷ insert q w m ]

  unfoldable pub remove : K → HashMap K V → HashMap K V
  remove q [] = []
  remove q ((k, v) ∷ m) = elim (k =? q) [ true ↦ remove q m | false ↦ (k, v) ∷ remove q m ]

  -- A write through `get_mut`: the entry of the key, if there is one, is replaced.
  unfoldable pub modify : K → (V → V) → HashMap K V → HashMap K V
  modify q f [] = []
  modify q f ((k, v) ∷ m) = elim (k =? q) [ true ↦ (k, f v) ∷ m | false ↦ (k, v) ∷ modify q f m ]

  pub get-insert :
      (k q : K) (v : V) (m : HashMap K V)
      → get q (insert k v m) ≡ elim (k =? q) [ true ↦ some v | false ↦ get q m ]
  unfolding get insert
  get-insert k q v [] = refl
  get-insert k q v ((j, w) ∷ m) =
      ground (arith, e.beq_iff k q, e.beq_iff j q, e.beq_iff j k, get-insert k q v m)

  pub get-insert_self : (k : K) (v : V) (m : HashMap K V) → get k (insert k v m) ≡ some v
  get-insert_self k v m = rw (get-insert k k v m, beq_refl k)

  pub get-insert_ne : (k q : K) (v : V) (m : HashMap K V) → k ≢ q → get q (insert k v m) ≡ get q m
  get-insert_ne k q v m n = ground (arith, get-insert k q v m, e.beq_iff k q)

  pub get-modify_self :
      (k : K) (f : V → V) {v : V} (m : HashMap K V)
      → get k m ≡ some v
      → get k (modify k f m) ≡ some (f v)
  unfolding get modify
  get-modify_self k f [] h = ground arith
  get-modify_self k f {v} ((j, w) ∷ m) h = ground (arith, get-modify_self k f {v = v} m)

  pub get-modify_ne :
      (k q : K) (f : V → V) (m : HashMap K V) → k ≢ q → get q (modify k f m) ≡ get q m
  unfolding get modify
  get-modify_ne k q f [] n = refl
  get-modify_ne k q f ((j, w) ∷ m) n =
      ground (arith, e.beq_iff j k, e.beq_iff j q, get-modify_ne k q f m)

  pub get-remove_self : (k : K) (m : HashMap K V) → get k (remove k m) ≡ none
  unfolding get remove
  get-remove_self k [] = refl
  get-remove_self k ((j, w) ∷ m) = ground (arith, get-remove_self k m)

  pub get-remove_ne : (k q : K) (m : HashMap K V) → k ≢ q → get q (remove k m) ≡ get q m
  unfolding get remove
  get-remove_ne k q [] n = refl
  get-remove_ne k q ((j, w) ∷ m) n =
      ground (arith, e.beq_iff j k, e.beq_iff j q, get-remove_ne k q m)

  pub get-modify :
      (k q : K) (f : V → V) (m : HashMap K V)
      → get q (modify k f m) ≡ elim (k =? q) [ true ↦ Option.map f (get q m) | false ↦ get q m ]
  unfolding get modify
  get-modify k q f [] = ground arith
  get-modify k q f ((j, w) ∷ m) =
      ground (arith, e.beq_iff k q, e.beq_iff j q, e.beq_iff j k, get-modify k q f m)

  pub get-remove :
      (k q : K) (m : HashMap K V)
      → get q (remove k m) ≡ elim (k =? q) [ true ↦ none | false ↦ get q m ]
  unfolding get remove
  get-remove k q [] = ground arith
  get-remove k q ((j, w) ∷ m) =
      ground (arith, e.beq_iff k q, e.beq_iff j q, e.beq_iff j k, get-remove k q m)
