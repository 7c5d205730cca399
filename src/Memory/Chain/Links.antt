-- ===== src/Memory/Chain/Links.antt =====
-- The well-formed trees of blockchain/src/memory/chain.rs: items under their own ids, each one
-- level below its parent.
use rust_chain.Prelude.{
  ℕ, ◌+◌, ◌≡◌, refl, sym, ap, ◌∙◌, ◌⊎◌, [], none, some, inl, inr, arith, Bool-cases,
}
use rust_chain.Prelude.Eq.{Eq, ◌=?◌}
use rust_chain.Prelude.HashMap
use rust_chain.Block.{Identified}
use rust_chain.Memory.Chain.Insert.{insert_cases}
use rust_chain.Memory.Chain.Lookup.{get-push_child, push_child-get, get-store, new_item, add_child}
use rust_chain.Memory.Chain.{
  MemoryForkTree, MemoryForkTreeItem, Unique, new, push_child, store, insert, block,
}

module _ {ℓ} {B I : Type ℓ} ⦃e : Eq I⦄ ⦃b : Identified B I⦄ where
  pub record IsLinked (t : MemoryForkTree B I) : Type ℓ where
    pub keyed :
        (k : I) (item : MemoryForkTreeItem B I)
        → HashMap.get k t.blocks ≡ some item
        → b.id item.block ≡ k
    pub root :
        (k : I) (item : MemoryForkTreeItem B I)
        → HashMap.get k t.blocks ≡ some item
        → b.parent_id item.block ≡ none
        → item.depth ≡ 0
    pub below :
        (k p : I) (item : MemoryForkTreeItem B I)
        → HashMap.get k t.blocks ≡ some item
        → b.parent_id item.block ≡ some p
        → (parent : MemoryForkTreeItem B I) × (HashMap.get p t.blocks ≡ some parent)
          × (item.depth ≡ parent.depth + 1)

  pub new-IsLinked : IsLinked new
  unfolding new HashMap.get
  new-IsLinked = record {
    keyed = λ k item h. ground arith;
    root = λ k item h n. ground arith;
    below = λ k p item h n. absurd (cc h);
  }

  pub push_child-get_some :
      (t : MemoryForkTree B I) (parent_id id q : I) (item : MemoryForkTreeItem B I)
      → HashMap.get q t.blocks ≡ some item
      → (new : MemoryForkTreeItem B I) × (HashMap.get q (push_child t parent_id id).blocks
          ≡ some new)
        × (new.depth ≡ item.depth)
  push_child-get_some t parent_id id q item g = elim (Bool-cases (parent_id =? q)) [
    | inl z ↦ (add_child id item, rw (get-push_child t parent_id id q, z, g) refl, refl)
    | inr n ↦ (item, rw (get-push_child t parent_id id q, n) g, refl)
  ]

  pub push_child-IsLinked :
      (t : MemoryForkTree B I) (parent_id id : I)
      → IsLinked t
      → IsLinked (push_child t parent_id id)
  push_child-IsLinked t parent_id id l = record {
    keyed = λ k item h.
        let m = push_child-get t parent_id id k item h in ap b.id m.2 ∙ l.keyed k m.0 m.1;
    root = λ k item h n.
        let m = push_child-get t parent_id id k item h in
        m.3 ∙ l.root k m.0 m.1 (sym (ap b.parent_id m.2) ∙ n);
    below = λ k p item h n.
        let m = push_child-get t parent_id id k item h in
        let f = l.below k p m.0 m.1 (sym (ap b.parent_id m.2) ∙ n) in
        let g = push_child-get_some t parent_id id p f.0 f.1 in
        (g.0, g.1, m.3 ∙ f.2 ∙ ap (λ (x : ℕ). x + 1) (sym g.2));
  }

  -- An item read after a store is the new one, or was there before.
  store-get :
      (t : MemoryForkTree B I) (block : B) (depth : ℕ) (k : I) (item : MemoryForkTreeItem B I)
      → HashMap.get k (store t block depth []).blocks ≡ some item
      → (item ≡ new_item block depth []) ⊎ (HashMap.get k t.blocks ≡ some item)
  store-get t block depth k item h = ground (arith, get-store t block depth [] k)

  pub store-get_old :
      (t : MemoryForkTree B I) (block : B) (depth : ℕ) (k : I) (item : MemoryForkTreeItem B I)
      → HashMap.get (b.id block) t.blocks ≡ none
      → HashMap.get k t.blocks ≡ some item
      → HashMap.get k (store t block depth []).blocks ≡ some item
  store-get_old t block depth k item fresh g =
      ground (arith, get-store t block depth [] k, e.beq_iff (b.id block) k)

  store-IsLinked :
      (t : MemoryForkTree B I) (block : B) (depth : ℕ)
      → HashMap.get (b.id block) t.blocks ≡ none
      → (b.parent_id block ≡ none → depth ≡ 0)
      → ((p : I)
          → b.parent_id block ≡ some p
          → (parent : MemoryForkTreeItem B I) × (HashMap.get p t.blocks ≡ some parent)
            × (depth ≡ parent.depth + 1))
      → IsLinked t
      → IsLinked (store t block depth [])
  store-IsLinked t block depth fresh at_root under l = record {
    keyed = λ k item h.
        ground (arith, get-store t block depth [] k, e.beq_iff (b.id block) k, l.keyed k item);
    root = λ k item h n.
        ground (arith, get-store t block depth [] k, e.beq_iff (b.id block) k, l.root k item);
    below = λ k p item h n. elim (store-get t block depth k item h) [
      | inl new ↦
          let f =
            under p (sym (ap (λ (x : MemoryForkTreeItem B I). b.parent_id x.block) new) ∙ n) in
          (
            f.0,
            store-get_old t block depth p f.0 fresh f.1,
            ap (λ (x : MemoryForkTreeItem B I). x.depth) new ∙ f.2,
          )
      | inr old ↦
          let f = l.below k p item old n in (f.0, store-get_old t block depth p f.0 fresh f.1, f.2)
    ];
  }

  -- A block with a new id keeps the tree well-formed, whether `insert` takes it or refuses it.
  pub insert-IsLinked :
      (u : Unique) (t : MemoryForkTree B I) (block : B)
      → HashMap.get (b.id block) t.blocks ≡ none
      → IsLinked t
      → IsLinked (insert u t block).1
  insert-IsLinked u t block fresh l =
      insert_cases (λ r. IsLinked r.1) u t block
        (λ root. store-IsLinked t block 0 fresh (λ _. refl) (λ p e₁. absurd (cc (root, e₁))) l)
        (λ p e₁ e₂. l) (λ p parent e₁ e₂ z. push_child-IsLinked t p (b.id block) l)
        (λ p parent e₁ e₂ n.
          let t' = push_child t p (b.id block) in
          let f = push_child-get_some t p (b.id block) p parent e₂ in
          store-IsLinked t' block (parent.depth + 1)
            (ground (arith, get-push_child t p (b.id block) (b.id block)))
            (λ root. absurd (cc (root, e₁)))
            (λ q e₃. let same : q ≡ p = cc in (f.0, rw same f.1, ap (λ (x : ℕ). x + 1) (sym f.2)))
            (push_child-IsLinked t p (b.id block) l))
