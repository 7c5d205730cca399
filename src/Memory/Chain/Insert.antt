-- ===== src/Memory/Chain/Insert.antt =====
-- What `insert` of blockchain/src/memory/chain.rs does on every tree.
use mathlib.Core.List.{mem-cons_self, mem-cons, not-mem-nil}
use mathlib.Core.Logic.Or
use native.Mathlib.Bridge.{le_prop}
use rust_chain.Prelude.{
  ℕ, ◌+◌, ◌-◌, ◌%◌, ◌≤◌, ◌<◌, ◌≡◌, ◌≢◌, refl, subst, List, [], ◌∷◌, none, some, Result, ok, err,
  ◌==◌, if◌then◌else◌, Option-cases, Bool-cases, inl, inr, arith, Mem, All, ◌⊎◌, ◌++◌,
}
use rust_chain.Prelude.Eq.{Eq}
use rust_chain.Prelude.HashMap
use rust_chain.Block.{Identified}
use rust_chain.Memory.Chain.Ancestor.{ancestor_id_at_depth_lem}
use rust_chain.Memory.Chain.Skip.{skip_targets-le, skip_targets-eq-nil, skip_targets-mem}
use rust_chain.Memory.Chain.{
  MemoryForkTree, MemoryForkTreeItem, InsertError, Unique, invalid_ancestor_depth, unknown_parent,
  query, skip_targets, push_child, collect_ancestors, build_ancestors, store, insert,
}

le_of_All : {n a : ℕ} (xs : List ℕ) → All (λ x. x + 4 ≤ n) xs → Mem a xs → a + 4 ≤ n
le_of_All [] h m = absurd (not-mem-nil m)
le_of_All (x ∷ xs) h m = Or.elim le_prop (mem-cons.0 m) (λ e. rw e h.0) (le_of_All xs h.1)

-- A list with no member is empty, and any other has a first member.
first_member : (xs : List ℕ) → (xs ≡ []) ⊎ ((x : ℕ) × (rest : List ℕ) × (xs ≡ x ∷ rest) × Mem x xs)
first_member [] = inl refl
first_member (x ∷ xs) = inr (x, xs, refl, mem-cons_self)

unique-nil : (u : Unique) → u.unique [] ≡ []
unique-nil u = elim (first_member (u.unique [])) [
  | inl e ↦ e
  | inr (x, rest, e, m) ↦ absurd (not-mem-nil ((u.unique_mem x []).0 m))
]

-- Where 4 divides the depth, the first target of the skip list lies above the parent.
unique_targets :
    (u : Unique) (depth : ℕ)
    → depth % 4 ≡ 0
    → 4 ≤ depth
    → (a : ℕ) × (rest : List ℕ) × (u.unique (skip_targets depth) ≡ a ∷ rest) × (a + 4 ≤ depth)
unique_targets u depth h l = elim (first_member (u.unique (skip_targets depth))) [
  | inl e ↦
      absurd (
        not-mem-nil (subst (Mem (depth - 4)) e ((u.unique_mem _ _).1 (skip_targets-mem depth h l))))
  | inr (a, rest, e, m) ↦ (a, rest, e, le_of_All _ (skip_targets-le depth) ((u.unique_mem a _).0 m))
]

module _ {ℓ} {B I : Type ℓ} ⦃e : Eq I⦄ ⦃b : Identified B I⦄ where
  collect_ancestors_fails :
      (t : MemoryForkTree B I) (parent_id : I) {parent : MemoryForkTreeItem B I} (a : ℕ)
      (rest : List ℕ)
      → HashMap.get parent_id t.blocks ≡ some parent
      → a < parent.depth
      → collect_ancestors t parent_id (a ∷ rest) ≡ err invalid_ancestor_depth
  unfolding collect_ancestors
  collect_ancestors_fails t parent_id a rest p h =
      ground (arith, ancestor_id_at_depth_lem t parent_id a)

  -- The skip list is empty, or it cannot be built.
  pub build_ancestors_lem :
      (u : Unique) (t : MemoryForkTree B I) (block : B) (parent_id : I)
      (parent : MemoryForkTreeItem B I)
      → b.parent_id block ≡ some parent_id
      → HashMap.get parent_id t.blocks ≡ some parent
      → build_ancestors u t block (parent.depth + 1)
        ≡ (if (parent.depth + 1) % 4 == 0 then err (query invalid_ancestor_depth) else ok [])
  unfolding build_ancestors
  build_ancestors_lem u t block parent_id parent p g =
      elim (Bool-cases ((parent.depth + 1) % 4 == 0)) [
        | inl z ↦
            let m = unique_targets u (parent.depth + 1) (ground arith) (ground arith) in
            rw (z, p, build_ancestors, m.2)
              (rw (collect_ancestors_fails t parent_id m.0 m.1 g (omega (arith, m.3))))
        | inr n ↦ rw (
          n,
          p,
          build_ancestors,
          skip_targets-eq-nil (parent.depth + 1) (ground arith),
          unique-nil u,
        )
      ]

  get-push_child :
      (t : MemoryForkTree B I) (parent_id id : I) {parent : MemoryForkTreeItem B I}
      → HashMap.get parent_id t.blocks ≡ some parent
      → HashMap.get parent_id (push_child t parent_id id).blocks
        ≡ some (record parent { children = parent.children ++ id ∷ [] })
  unfolding push_child
  get-push_child t parent_id id g = HashMap.get-modify_self parent_id _ t.blocks g

  -- What `insert` comes to: no skip list is ever built, and a depth that 4 divides is refused,
  -- with the block left among the children of its parent.
  abbrev pub insert_result :
      MemoryForkTree B I → B → Result (Unit {0}) InsertError × MemoryForkTree B I
  insert_result t block = elim (b.parent_id block) [
    | none ↦ (ok tt, store t block 0 [])
    | some parent_id ↦ elim (HashMap.get parent_id t.blocks) [
      | none ↦ (err unknown_parent, t)
      | some parent ↦
          let t' = push_child t parent_id (b.id block) in
          if (parent.depth + 1) % 4 == 0
          then (err (query invalid_ancestor_depth), t')
          else (ok tt, store t' block (parent.depth + 1) [])
    ]
  ]

  pub insert-child :
      (u : Unique) (t : MemoryForkTree B I) (block : B) (parent_id : I)
      (parent : MemoryForkTreeItem B I)
      → b.parent_id block ≡ some parent_id
      → HashMap.get parent_id t.blocks ≡ some parent
      → insert u t block ≡ (
          let t' = push_child t parent_id (b.id block) in
          if (parent.depth + 1) % 4 == 0
          then (err (query invalid_ancestor_depth), t')
          else (ok tt, store t' block (parent.depth + 1) []))
  unfolding insert
  insert-child u t block parent_id parent p g = ground (
    arith,
    build_ancestors_lem u (push_child t parent_id (b.id block)) block parent_id
        (record parent { children = parent.children ++ b.id block ∷ [] }) p
        (get-push_child t parent_id (b.id block) g),
  )

  pub insert-root :
      (u : Unique) (t : MemoryForkTree B I) (block : B)
      → b.parent_id block ≡ none
      → insert u t block ≡ (ok tt, store t block 0 [])
  unfolding insert
  insert-root u t block p = ground arith

  pub insert-orphan :
      (u : Unique) (t : MemoryForkTree B I) (block : B) (parent_id : I)
      → b.parent_id block ≡ some parent_id
      → HashMap.get parent_id t.blocks ≡ none
      → insert u t block ≡ (err unknown_parent, t)
  unfolding insert
  insert-orphan u t block parent_id p g = ground arith

  -- On every tree `insert` answers, and its answer and the tree it leaves are those of
  -- `insert_result`.
  pub insert_lem :
      (u : Unique) (t : MemoryForkTree B I) (block : B) → insert u t block ≡ insert_result t block
  unfolding insert
  insert_lem u t block = elim (Option-cases (b.parent_id block)) [
    | inl root ↦ ground arith
    | inr (parent_id, p) ↦ elim (Option-cases (HashMap.get parent_id t.blocks)) [
      | inl missing ↦ ground arith
      | inr (parent, g) ↦ ground (arith, insert-child u t block parent_id parent p g)
    ]
  ]

  -- To prove of the outcome of `insert` what holds on each of its branches.
  pub insert_cases {μ} :
      (P : Result (Unit {0}) InsertError × MemoryForkTree B I → Type μ) (u : Unique)
      (t : MemoryForkTree B I) (block : B)
      → (b.parent_id block ≡ none → P (ok tt, store t block 0 []))
      → ((p : I)
          → b.parent_id block ≡ some p
          → HashMap.get p t.blocks ≡ none
          → P (err unknown_parent, t))
      → ((p : I) (parent : MemoryForkTreeItem B I)
          → b.parent_id block ≡ some p
          → HashMap.get p t.blocks ≡ some parent
          → (parent.depth + 1) % 4 ≡ 0
          → P (err (query invalid_ancestor_depth), push_child t p (b.id block)))
      → ((p : I) (parent : MemoryForkTreeItem B I)
          → b.parent_id block ≡ some p
          → HashMap.get p t.blocks ≡ some parent
          → (parent.depth + 1) % 4 ≢ 0
          → P (ok tt, store (push_child t p (b.id block)) block (parent.depth + 1) []))
      → P (insert u t block)
  insert_cases P u t block root orphan deep child =
      rw (insert_lem u t block) (elim (Option-cases (b.parent_id block)) [
        | inl e₁ ↦ rw (e₁, insert_result) (root e₁)
        | inr (p, e₁) ↦ elim (Option-cases (HashMap.get p t.blocks)) [
          | inl e₂ ↦ rw (e₁, e₂, insert_result) (orphan p e₁ e₂)
          | inr (parent, e₂) ↦ elim (Bool-cases ((parent.depth + 1) % 4 == 0)) [
            | inl z ↦ rw (e₁, e₂, z, insert_result) (deep p parent e₁ e₂ (ground arith))
            | inr n ↦ rw (e₁, e₂, n, insert_result) (child p parent e₁ e₂ (ground arith))
          ]
        ]
      ])
