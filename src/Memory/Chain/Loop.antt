-- ===== src/Memory/Chain/Loop.antt =====
-- The loop of `ancestor_id_at_depth` in blockchain/src/memory/chain.rs, from any block that is at
-- the target depth or below it. (The function itself starts it at the target depth only.)
use rust_chain.Prelude.{
  leb→le, Bool, ℕ, zero, suc, ◌+◌, ◌≤◌, ◌<◌, ◌≡◌, refl, ◌∙◌, List, [], ◌∷◌, some, Option-cases, inl,
  inr, arith, ok, All, filter, leb, ltb, if◌then◌else◌, true, false,
}
use native.Mathlib.Decide.{dec_le}
use rust_chain.Prelude.Eq.{Eq}
use rust_chain.Prelude.HashMap
use rust_chain.Block.{Identified}
use rust_chain.Memory.Chain.Links.{IsLinked}
use rust_chain.Memory.Chain.Relation.{
  AncestorAt, here, up, AncestorAt-get, AncestorAt-trans, AncestorAt-unique,
}
use rust_chain.Memory.Chain.{
  MemoryForkTree, MemoryForkTreeItem, reduce_min, reduce_or, next_ancestor_id, ancestor_loop,
}

pub if-elim {ℓ κ} :
    {A : Type ℓ} (P : A → Type κ) (c : Bool) {x y : A} → P x → P y → P (if c then x else y)
if-elim P true px py = px
if-elim P false px py = py

pub All-filter_both {ℓ κ} :
    {A : Type ℓ} (P : A → Type κ) (p : A → Bool) (xs : List A)
    → All P xs
    → All (λ x. P x × (p x ≡ true)) (filter p xs)
All-filter_both P p [] h = tt
All-filter_both P p (x ∷ xs) h = ground (arith, All-filter_both P p xs)

module _ {ℓ κ} {I : Type ℓ} where
  -- What holds of the start and of every entry holds of the entry that `reduce` picks.
  pub reduce_min-All :
      (P : ℕ × I → Type κ) (m : ℕ × I) (rest : List (ℕ × I))
      → P m
      → All P rest
      → P (reduce_min m rest)
  unfolding reduce_min
  reduce_min-All P m [] pm h = pm
  reduce_min-All P (min_depth, min_id) ((d, id) ∷ rest) pm (pd, h) =
      reduce_min-All P (if ltb d min_depth then (d, id) else (min_depth, min_id)) rest
        (if-elim P (ltb d min_depth) pd pm) h

  reduce_or-All {μ} :
      (P : ℕ × I → Type κ) (Q : I → Type μ) (parent_id : I) (l : List (ℕ × I))
      → Q parent_id
      → ((a : ℕ × I) → P a → Q a.1)
      → All P l
      → Q (reduce_or parent_id l)
  unfolding reduce_or
  reduce_or-All P Q parent_id [] q f h = q
  reduce_or-All P Q parent_id (a ∷ l) q f h = f (reduce_min a l) (reduce_min-All P a l h.0 h.1)

module _ {ℓ} {B I : Type ℓ} ⦃e : Eq I⦄ ⦃b : Identified B I⦄ where
  -- Every entry of a skip list is an ancestor at the depth that it names.
  abbrev pub HasSkipLists : MemoryForkTree B I → Type ℓ
  HasSkipLists t =
      (k : I) (item : MemoryForkTreeItem B I)
      → HashMap.get k t.blocks ≡ some item
      → All (λ a. (a.0 < item.depth) × AncestorAt t k a.0 a.1) item.ancestors

  -- A step of the loop: to a block of the tree that is higher up and not above the target.
  abbrev Hop : MemoryForkTree B I → I → ℕ → ℕ → I → Type ℓ
  Hop t k depth d q =
      (next : MemoryForkTreeItem B I) × (HashMap.get q t.blocks ≡ some next)
      × (d ≤ next.depth)
      × (next.depth < depth)
      × AncestorAt t k next.depth q

  next_ancestor_id-Hop :
      (t : MemoryForkTree B I) (k p : I) (item : MemoryForkTreeItem B I) (d : ℕ)
      → IsLinked t
      → HasSkipLists t
      → HashMap.get k t.blocks ≡ some item
      → b.parent_id item.block ≡ some p
      → d < item.depth
      → Hop t k item.depth d (next_ancestor_id item.ancestors d p)
  unfolding next_ancestor_id
  next_ancestor_id-Hop t k p item d l s g n h =
      reduce_or-All (λ a. ((a.0 < item.depth) × AncestorAt t k a.0 a.1) × (leb d a.0 ≡ true))
        (Hop t k item.depth d) p _ to_parent by_entry
        (All-filter_both _ (λ a. leb d a.0) item.ancestors (s k item g))
    where
      to_parent : Hop t k item.depth d p
      to_parent =
          let m = l.below k p item g n in
          (m.0, m.1, omega (arith, m.2), omega (arith, m.2), up p item g n (here m.0 m.1 refl refl))

      by_entry :
          (a : ℕ × I)
          → ((a.0 < item.depth) × AncestorAt t k a.0 a.1) × (leb d a.0 ≡ true)
          → Hop t k item.depth d a.1
      by_entry a q =
          let m = AncestorAt-get q.0.1 in
          (m.0, m.1, omega (arith, m.2, leb→le d a.0 q.1), omega (arith, m.2, q.0.0), rw m.2 q.0.1)

  ancestor_loop_step :
      (fuel : ℕ) (t : MemoryForkTree B I) (item next : MemoryForkTreeItem B I) (d : ℕ) (p : I)
      → d < item.depth
      → b.parent_id item.block ≡ some p
      → HashMap.get (next_ancestor_id item.ancestors d p) t.blocks ≡ some next
      → ancestor_loop (suc fuel) t item d ≡ ancestor_loop fuel t next d
  unfolding ancestor_loop
  ancestor_loop_step fuel t item next d p h n g = ground arith

  ancestor_loop_finds :
      (fuel : ℕ) (t : MemoryForkTree B I) (k : I) (item : MemoryForkTreeItem B I) (d : ℕ)
      → IsLinked t
      → HasSkipLists t
      → HashMap.get k t.blocks ≡ some item
      → d ≤ item.depth
      → item.depth < fuel + d
      → (a : I) × (ancestor_loop fuel t item d ≡ ok a) × AncestorAt t k d a
  unfolding ancestor_loop
  ancestor_loop_finds zero t k item d l s g h f = absurd (omega arith)
  ancestor_loop_finds (suc fuel) t k item d l s g h f = elim (dec_le item.depth d) [
    | yes top ↦ (k, ground (arith, l.keyed k item g), here item g (omega arith) refl)
    | no more ↦ elim (Option-cases (b.parent_id item.block)) [
      | inl n ↦ absurd (omega (arith, l.root k item g n))
      | inr (p, n) ↦
          let hop = next_ancestor_id-Hop t k p item d l s g n (omega arith) in
          let rec = ancestor_loop_finds fuel t _ hop.0 d l s hop.1 hop.2 (omega (arith, hop.3)) in
          (
            rec.0,
            ancestor_loop_step fuel t item hop.0 d p (omega arith) n hop.1 ∙ rec.1,
            AncestorAt-trans hop.4 rec.2,
          )
    ]
  ]

  -- From a block at or below the target depth, on a well-formed tree whose skip lists are right and
  -- with a round for each level, the loop returns an id, and that is the one id that the parent
  -- links of the block lead to at the target depth.
  pub ancestor_loop-AncestorAt :
      (fuel : ℕ) (t : MemoryForkTree B I) (k : I) (item : MemoryForkTreeItem B I) (d : ℕ)
      → IsLinked t
      → HasSkipLists t
      → HashMap.get k t.blocks ≡ some item
      → d ≤ item.depth
      → item.depth < fuel + d
      → (a : I) × (ancestor_loop fuel t item d ≡ ok a)
        × AncestorAt t k d a
        × ((c : I) → AncestorAt t k d c → c ≡ a)
  ancestor_loop-AncestorAt fuel t k item d l s g h f =
      let (a, found, m) = ancestor_loop_finds fuel t k item d l s g h f in
      (a, found, m, λ c other. AncestorAt-unique l other m)
