-- ===== src/Memory/Chain/Index.antt =====
-- What the trees of blockchain/src/memory/chain.rs list: the ids at each depth, and the children of
-- each block.
use rust_chain.Prelude.{
  ℕ, ◌+◌, ◌≡◌, ◌∙◌, ap, Bool, true, false, ◌||◌, none, some, List, [], ◌∷◌, ◌++◌, refl, sym, inl,
  inr, Option-cases, Bool-cases, arith,
}
use mathlib.Core.Option
use rust_chain.Prelude.Eq.{Eq, nat_eq, ◌=?◌, beq_refl}
use rust_chain.Prelude.HashMap
use rust_chain.Block.{Identified}
use rust_chain.Memory.Chain.{
  MemoryForkTree, MemoryForkTreeItem, Unique, new, push_child, push_depth, store, insert,
}
use rust_chain.Memory.Chain.Insert.{insert_cases}
use rust_chain.Memory.Chain.Links.{IsLinked, push_child-IsLinked, insert-IsLinked, new-IsLinked}
use rust_chain.Memory.Chain.Shallow.{insert_all}
use rust_chain.Memory.Chain.Lookup.{get-push_child, push_child-get, get-store, new_item, add_child}

module _ {ℓ} {I : Type ℓ} ⦃e : Eq I⦄ where
  -- How often an id is listed.
  unfoldable pub count : I → List I → ℕ
  count k [] = 0
  count k (x ∷ xs) = elim (x =? k) [ true ↦ count k xs + 1 | false ↦ count k xs ]

  unfoldable pub is_listed : I → List I → Bool
  is_listed k [] = false
  is_listed k (x ∷ xs) = (x =? k) || is_listed k xs

  count-append :
      (k x : I) (xs : List I)
      → count k (xs ++ x ∷ []) ≡ elim (x =? k) [ true ↦ count k xs + 1 | false ↦ count k xs ]
  unfolding count
  count-append k x [] = refl
  count-append k x (y ∷ xs) = ground (arith, count-append k x xs)

  is_listed-append :
      (k x : I) (xs : List I) → is_listed k (xs ++ x ∷ []) ≡ (is_listed k xs || (x =? k))
  unfolding is_listed
  is_listed-append k x [] = ground arith
  is_listed-append k x (y ∷ xs) = ground (arith, is_listed-append k x xs)

module _ {ℓ} {B I : Type ℓ} ⦃e : Eq I⦄ ⦃b : Identified B I⦄ where
  -- The ids that a tree lists at a depth.
  unfoldable pub ids_at : ℕ → MemoryForkTree B I → List I
  ids_at n t = Option.get_or (HashMap.get n t.depths) []

  -- The times that an id should be listed at a depth: once at that of its block.
  abbrev pub times_at : I → ℕ → MemoryForkTree B I → ℕ
  times_at k n t = elim (HashMap.get k t.blocks) [
    | some item ↦ elim (item.depth =? n) [ true ↦ 1 | false ↦ 0 ]
    | none ↦ 0
  ]

  pub record IsIndexed (t : MemoryForkTree B I) : Type ℓ where
    pub depths : (k : I) (n : ℕ) → count k (ids_at n t) ≡ times_at k n t
    pub children :
        (k p : I) (item parent : MemoryForkTreeItem B I)
        → HashMap.get k t.blocks ≡ some item
        → b.parent_id item.block ≡ some p
        → HashMap.get p t.blocks ≡ some parent
        → is_listed k parent.children ≡ true

  pub new-IsIndexed : IsIndexed new
  unfolding new HashMap.get ids_at count
  new-IsIndexed = record { depths = λ k n. refl; children = λ k p item parent g n h. absurd (cc g) }

  ids_at-push_child :
      (n : ℕ) (t : MemoryForkTree B I) (p id : I) → ids_at n (push_child t p id) ≡ ids_at n t
  unfolding ids_at push_child
  ids_at-push_child n t p id = refl

  ids_at-store :
      (n : ℕ) (t : MemoryForkTree B I) (block : B) (depth : ℕ)
      → ids_at n (store t block depth [])
        ≡ elim (depth =? n) [ true ↦ ids_at n t ++ b.id block ∷ [] | false ↦ ids_at n t ]
  unfolding ids_at store push_depth
  ids_at-store n t block depth = ground (
    arith,
    nat_eq.beq_iff depth n,
    HashMap.get-insert depth n (Option.get_or (HashMap.get depth t.depths) [] ++ b.id block ∷ [])
        t.depths,
  )

  push_child-IsIndexed :
      (t : MemoryForkTree B I) (p id : I) → IsIndexed t → IsIndexed (push_child t p id)
  push_child-IsIndexed t p id x = record {
    depths = λ k n.
        ap (count k) (ids_at-push_child n t p id)
        ∙ x.depths k n
        ∙ ground (arith, get-push_child t p id k);
    children = λ k q item parent g n h.
        let (old, g', same, d, a) = push_child-get t p id k item g in
        let named = sym (ap b.parent_id same) ∙ n in
        elim (Option-cases (HashMap.get q t.blocks)) [
          | inl none_there ↦ absurd (ground (arith, get-push_child t p id q, none_there, h))
          | inr (found, g'') ↦ elim (Bool-cases (p =? q)) [
            | inl z ↦ ground (
              arith,
              get-push_child t p id q,
              g'',
              z,
              h,
              x.children k q old found g' named g'',
              is_listed-append k id found.children,
            )
            | inr z ↦
                ground
                  (arith, get-push_child t p id q, g'', z, h, x.children k q old found g' named g'')
          ]
        ];
  }

  -- A block of the tree before a store of a new id is the same after it.
  get-store_known :
      (t : MemoryForkTree B I) (block : B) (depth : ℕ) (p : I)
      (found parent : MemoryForkTreeItem B I)
      → HashMap.get (b.id block) t.blocks ≡ none
      → HashMap.get p t.blocks ≡ some found
      → HashMap.get p (store t block depth []).blocks ≡ some parent
      → found ≡ parent
  get-store_known t block depth p found parent fresh g h = elim (Bool-cases (b.id block =? p)) [
    | inl z ↦
        let same = (e.beq_iff (b.id block) p).0 z in
        absurd (cc (ap (λ k. HashMap.get k t.blocks) same, fresh, g))
    | inr z ↦ ground (arith, get-store t block depth [] p, z, g, h)
  ]

  store-IsIndexed :
      (t : MemoryForkTree B I) (block : B) (depth : ℕ)
      → HashMap.get (b.id block) t.blocks ≡ none
      → ((p : I)
          → b.parent_id block ≡ some p
          → (parent : MemoryForkTreeItem B I) × (HashMap.get p t.blocks ≡ some parent)
            × (is_listed (b.id block) parent.children ≡ true))
      → IsLinked t
      → IsIndexed t
      → IsIndexed (store t block depth [])
  store-IsIndexed t block depth fresh under l x = record {
    depths = λ k n.
        ap (count k) (ids_at-store n t block depth)
        ∙ ground (
          arith,
          x.depths k n,
          get-store t block depth [] k,
          fresh,
          e.beq_iff (b.id block) k,
          count-append k (b.id block) (ids_at n t),
        );
    children = λ k p item parent g n h. elim (Bool-cases (b.id block =? k)) [
      | inl z ↦
          let same : item ≡ new_item block depth [] =
            ground (arith, get-store t block depth [] k, z, g) in
          let (found, g', listed) =
            under p (sym (ap (λ (i : MemoryForkTreeItem B I). b.parent_id i.block) same) ∙ n) in
          let kept = get-store_known t block depth p found parent fresh g' h in
          let id = (e.beq_iff (b.id block) k).0 z in
          cc (
            ap (λ (i : MemoryForkTreeItem B I). i.children) kept,
            ap (λ i. is_listed i parent.children) id,
            listed,
          )
      | inr z ↦
          let old : HashMap.get k t.blocks ≡ some item =
            ground (arith, get-store t block depth [] k, z, g) in
          let (found, g', d) = l.below k p item old n in
          let kept = get-store_known t block depth p found parent fresh g' h in
          cc (
            ap (λ (i : MemoryForkTreeItem B I). i.children) kept,
            x.children k p item found old n g',
          )
    ];
  }

  insert-IsIndexed :
      (u : Unique) (t : MemoryForkTree B I) (block : B)
      → HashMap.get (b.id block) t.blocks ≡ none
      → IsLinked t
      → IsIndexed t
      → IsIndexed (insert u t block).1
  insert-IsIndexed u t block fresh l x =
      insert_cases (λ r. IsIndexed r.1) u t block
        (λ root. store-IsIndexed t block 0 fresh (λ p e₁. absurd (cc (root, e₁))) l x)
        (λ p e₁ e₂. x) (λ p parent e₁ e₂ z. push_child-IsIndexed t p (b.id block) x)
        (λ p parent e₁ e₂ n.
          let id = b.id block in
          store-IsIndexed (push_child t p id) block (parent.depth + 1)
            (ground (arith, get-push_child t p id id))
            (λ q e₃.
              let same : p ≡ q = cc in
              (
                add_child id parent,
                ground (arith, get-push_child t p id q, e₂, same, (e.beq_iff p q).1 same),
                is_listed-append id id parent.children ∙ ground (arith, beq_refl id),
              ))
            (push_child-IsLinked t p id l) (push_child-IsIndexed t p id x))

  -- No block has the id of one that the tree has at its insert.
  abbrev pub AllFresh : Unique → MemoryForkTree B I → List B → Type ℓ
  AllFresh u t [] = Unit
  AllFresh u t (block ∷ blocks) =
      (HashMap.get (b.id block) t.blocks ≡ none) × AllFresh u (insert u t block).1 blocks

  insert_all-IsIndexed :
      (u : Unique) (t : MemoryForkTree B I) (blocks : List B)
      → AllFresh u t blocks
      → IsLinked t
      → IsIndexed t
      → IsIndexed (insert_all u t blocks)
  unfolding insert_all
  insert_all-IsIndexed u t [] f l x = x
  insert_all-IsIndexed u t (block ∷ blocks) f l x =
      insert_all-IsIndexed u (insert u t block).1 blocks f.1 (insert-IsLinked u t block f.0 l)
        (insert-IsIndexed u t block f.0 l x)

  -- Whatever blocks with ids that the tree does not have are inserted into a new tree, in whatever
  -- order and with whatever outcome: at each depth the tree lists the blocks that it has there, each
  -- exactly once and no other id; and each block whose parent the tree has is among its children.
  pub insert_all-new-IsIndexed :
      (u : Unique) (blocks : List B) → AllFresh u new blocks → IsIndexed (insert_all u new blocks)
  insert_all-new-IsIndexed u blocks f =
      insert_all-IsIndexed u new blocks f new-IsLinked new-IsIndexed
