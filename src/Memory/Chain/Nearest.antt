-- ===== src/Memory/Chain/Nearest.antt =====
-- Which entry of a skip list the loop of `ancestor_id_at_depth` goes to
-- (blockchain/src/memory/chain.rs).
use rust_chain.Prelude.{
  ℕ, ◌≤◌, ◌<◌, ◌≡◌, refl, sym, ap, ◌∙◌, subst, Bool, true, List, [], ◌∷◌, ◌⊎◌, inl, inr, All,
  All-imp, Mem, arith, filter, filter-true, filter-false, leb, leb→le, ltb, ltb→lt, if◌then◌else◌,
  Bool-cases, List-cases,
}
use mathlib.Core.List.{mem-cons_self, mem-cons_of_mem}
use rust_chain.Memory.Chain.{reduce_min, reduce_or, next_ancestor_id}
use rust_chain.Memory.Chain.Loop.{reduce_min-All, All-filter_both}

le→leb : (d n : ℕ) → d ≤ n → leb d n ≡ true
le→leb d n h = ground arith

above : (d n : ℕ) → (leb d n ≡ true → ⊥) → n < d
above d n f = ground (arith, le→leb d n)

module _ {ℓ κ} {A : Type ℓ} where
  All-Mem : (P : A → Type κ) (xs : List A) → ((x : A) → Mem x xs → P x) → All P xs
  All-Mem P [] f = tt
  All-Mem P (x ∷ xs) f = (f x mem-cons_self, All-Mem P xs (λ y m. f y (mem-cons_of_mem x m)))

  -- What holds of all that a test lets pass holds of an element if it passes.
  All-filter_if :
      (P : A → Type κ) (p : A → Bool) (xs : List A)
      → All P (filter p xs)
      → All (λ x. p x ≡ true → P x) xs
  All-filter_if P p [] h = tt
  All-filter_if P p (x ∷ xs) h = elim (Bool-cases (p x)) [
    | inl z ↦
        let h' = subst (All P) (filter-true p x xs z) h in (λ _. h'.0, All-filter_if P p xs h'.1)
    | inr z ↦
        let h' = subst (All P) (filter-false p x xs z) h in
        (λ passes. absurd (ground (arith, z, passes)), All-filter_if P p xs h')
  ]

module _ {ℓ} {I : Type ℓ} where
  reduce_min-cons :
      (m a : ℕ × I) (rest : List (ℕ × I))
      → reduce_min m (a ∷ rest) ≡ reduce_min (if ltb a.0 m.0 then a else m) rest
  unfolding reduce_min
  reduce_min-cons m a rest = refl

  reduce_min-le :
      (m : ℕ × I) (rest : List (ℕ × I)) → All (λ a. (reduce_min m rest).0 ≤ a.0) (m ∷ rest)
  reduce_min-le m [] = unfold reduce_min in (omega arith, tt)
  reduce_min-le m (a ∷ rest) = elim (Bool-cases (ltb a.0 m.0)) [
    | inl z ↦
        let h = reduce_min-le a rest in
        subst (λ (r : ℕ × I). All (λ x. r.0 ≤ x.0) (m ∷ a ∷ rest))
          (sym (reduce_min-cons m a rest ∙ ap (λ c. reduce_min (if c then a else m) rest) z))
          (omega (arith, h.0, ltb→lt a.0 m.0 z), h)
    | inr z ↦
        let h = reduce_min-le m rest in
        let le : m.0 ≤ a.0 = ground (arith, z) in
        subst (λ (r : ℕ × I). All (λ x. r.0 ≤ x.0) (m ∷ a ∷ rest))
          (sym (reduce_min-cons m a rest ∙ ap (λ c. reduce_min (if c then a else m) rest) z))
          (h.0, (omega (arith, h.0, le), h.1))
  ]

  -- From a block with a skip list the loop goes to the parent, if no entry of the list is at the
  -- target depth or below it; and else to an entry of the list that is, and of those to one that
  -- is the nearest to the target.
  pub next_ancestor_id-least :
      (ancestors : List (ℕ × I)) (d : ℕ) (parent_id : I)
      → (All (λ a. a.0 < d) ancestors × (next_ancestor_id ancestors d parent_id ≡ parent_id))
        ⊎ ((n : ℕ) × (id : I) × Mem (n, id) ancestors
            × (d ≤ n)
            × All (λ a. d ≤ a.0 → n ≤ a.0) ancestors
            × (next_ancestor_id ancestors d parent_id ≡ id))
  unfolding next_ancestor_id
  next_ancestor_id-least ancestors d parent_id =
      let passing = filter (λ (a : ℕ × I). leb d a.0) ancestors in
      let from =
        All-filter_both (λ a. Mem a ancestors) (λ a. leb d a.0) ancestors
          (All-Mem (λ a. Mem a ancestors) ancestors (λ x m. m)) in
      elim (List-cases passing) [
        | inl e ↦ inl (
          All-imp (λ a f. above d a.0 f) ancestors
              (All-filter_if (λ a. ⊥) (λ a. leb d a.0) ancestors (subst (All (λ a. ⊥)) (sym e) tt)),
          ap (reduce_or parent_id) e ∙ unfold reduce_or in refl,
        )
        | inr (a, rest, e) ↦
            let r = reduce_min a rest in
            let held = subst (All (λ (x : ℕ × I). Mem x ancestors × (leb d x.0 ≡ true))) e from in
            let (member, passes) =
              reduce_min-All (λ x. Mem x ancestors × (leb d x.0 ≡ true)) a rest held.0 held.1 in
            let least =
              All-filter_if (λ (x : ℕ × I). r.0 ≤ x.0) (λ x. leb d x.0) ancestors
                (subst (All (λ (x : ℕ × I). r.0 ≤ x.0)) (sym e) (reduce_min-le a rest)) in
            inr (
              r.0,
              r.1,
              member,
              leb→le d r.0 passes,
              All-imp (λ x f le. f (le→leb d x.0 le)) ancestors least,
              ap (reduce_or parent_id) e ∙ unfold reduce_or in refl,
            )
      ]
