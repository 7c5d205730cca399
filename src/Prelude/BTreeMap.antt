-- ===== src/Prelude/BTreeMap.antt =====
-- `std::collections::BTreeMap` over `usize` keys, as an association list in ascending order.
use Prim.Native.Nat.{ℕ, ◌<◌, ◌≤◌}
use mathlib.Core.Path.{◌≡◌, refl}
use mathlib.Core.Bool.{Bool, true, false}
use mathlib.Core.List.{List, [], ◌∷◌}
use mathlib.Core.Option.{Option, none, some}
use native.Mathlib.Omega.{arith}
use mathlib.Core.Logic.{◌↔◌}
use rust_chain.Prelude.Tests.{leb, ltb, ◌==◌, ==_iff, ltb→lt, lt→ltb}
use rust_chain.Prelude.Lists.{filter}

abbrev pub BTreeMap {ℓ} : Type ℓ → Type ℓ
BTreeMap V = List (ℕ × V)

-- The order of the keys, shut, so that a split on a test is a split on a `Bool`.
unfoldable pub same : ℕ → ℕ → Bool
same a b = a == b

unfoldable pub before : ℕ → ℕ → Bool
before a b = ltb a b

pub same_iff : (a b : ℕ) → (same a b ≡ true) ↔ (a ≡ b)
unfolding same
same_iff a b = ==_iff a b

pub before_iff : (a b : ℕ) → (before a b ≡ true) ↔ (a < b)
unfolding before
before_iff a b = (ltb→lt a b, lt→ltb a b)

module _ {ℓ} {V : Type ℓ} where
  unfoldable pub get : ℕ → BTreeMap V → Option V
  get q [] = none
  get q ((k, v) ∷ m) = elim (same k q) [ true ↦ some v | false ↦ get q m ]

  -- A write through `entry(key).or_default()`, with the default given.
  unfoldable pub modify_or : ℕ → V → (V → V) → BTreeMap V → BTreeMap V
  modify_or q default f [] = (q, f default) ∷ []
  modify_or q default f ((k, v) ∷ m) = elim (same q k) [
    | true ↦ (k, f v) ∷ m
    | false ↦ elim (before q k) [
      | true ↦ (q, f default) ∷ (k, v) ∷ m
      | false ↦ (k, v) ∷ modify_or q default f m
    ]
  ]

  -- `range((Unbounded, Included(last)))`.
  unfoldable pub range_to : ℕ → BTreeMap V → List (ℕ × V)
  range_to last m = filter (λ e. leb e.0 last) m

  abbrev pub Above : ℕ → BTreeMap V → Type 0
  Above n [] = Unit
  Above n ((k, v) ∷ m) = (n < k) × Above n m

  abbrev pub IsSorted : BTreeMap V → Type 0
  IsSorted [] = Unit
  IsSorted ((k, v) ∷ m) = Above k m × IsSorted m

  pub get-Above : (n q : ℕ) (m : BTreeMap V) → Above n m → q ≤ n → get q m ≡ none
  unfolding get
  get-Above n q [] h l = refl
  get-Above n q ((k, v) ∷ m) h l = ground (arith, same_iff k q, get-Above n q m h.1)

  pub modify_or-Above :
      (n q : ℕ) (default : V) (f : V → V) (m : BTreeMap V)
      → n < q
      → Above n m
      → Above n (modify_or q default f m)
  unfolding modify_or
  modify_or-Above n q default f [] l h = (l, tt)
  modify_or-Above n q default f ((k, v) ∷ m) l h =
      ground (arith, same_iff q k, before_iff q k, modify_or-Above n q default f m l h.1)

  pub Above-mono : (n k : ℕ) (m : BTreeMap V) → n < k → Above k m → Above n m
  Above-mono n k [] l h = tt
  Above-mono n k ((j, v) ∷ m) l h = (omega arith, Above-mono n k m l h.1)

  pub modify_or-IsSorted :
      (q : ℕ) (default : V) (f : V → V) (m : BTreeMap V)
      → IsSorted m
      → IsSorted (modify_or q default f m)
  unfolding modify_or
  modify_or-IsSorted q default f [] h = (tt, tt)
  modify_or-IsSorted q default f ((k, v) ∷ m) h = ground (
    arith,
    same_iff q k,
    before_iff q k,
    modify_or-IsSorted q default f m h.1,
    modify_or-Above k q default f m,
    Above-mono q k m,
  )

  abbrev pub or_default : V → Option V → V
  or_default d (some v) = v
  or_default d none = d

  pub get-modify_or :
      (k q : ℕ) (default : V) (f : V → V) (m : BTreeMap V)
      → IsSorted m
      → get q (modify_or k default f m)
        ≡ elim (same k q) [ true ↦ some (f (or_default default (get k m))) | false ↦ get q m ]
  unfolding get modify_or
  get-modify_or k q default f [] h = ground arith
  get-modify_or k q default f ((j, w) ∷ m) h = ground (
    arith,
    same_iff k q,
    same_iff j q,
    same_iff j k,
    same_iff k j,
    before_iff k j,
    get-modify_or k q default f m h.1,
    get-Above j k m h.0,
    get-Above j q m h.0,
  )
