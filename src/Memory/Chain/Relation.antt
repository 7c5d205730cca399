-- ===== src/Memory/Chain/Relation.antt =====
-- The ancestors of a block in a tree of blockchain/src/memory/chain.rs, by its parent links.
use rust_chain.Prelude.{ℕ, ◌≤◌, ◌≡◌, subst, sym, ◌∙◌, some, arith}
use rust_chain.Prelude.Eq.{Eq}
use rust_chain.Prelude.HashMap
use rust_chain.Block.{Identified}
use rust_chain.Memory.Chain.Links.{IsLinked}
use rust_chain.Memory.Chain.{MemoryForkTree, MemoryForkTreeItem}

module _ {ℓ} {B I : Type ℓ} ⦃e : Eq I⦄ ⦃b : Identified B I⦄ where
  -- `AncestorAt t k d a`: up the parent links from `k`, the block at depth `d` is `a`.
  pub data AncestorAt (t : MemoryForkTree B I) : I → ℕ → I → Type ℓ where
    here :
        {k a : I} {d : ℕ} (item : MemoryForkTreeItem B I)
        → HashMap.get k t.blocks ≡ some item
        → item.depth ≡ d
        → k ≡ a
        → AncestorAt t k d a
    up :
        {k a : I} {d : ℕ} (p : I) (item : MemoryForkTreeItem B I)
        → HashMap.get k t.blocks ≡ some item
        → b.parent_id item.block ≡ some p
        → AncestorAt t p d a
        → AncestorAt t k d a

  pub AncestorAt-get :
      {t : MemoryForkTree B I} {k a : I} {d : ℕ}
      → AncestorAt t k d a
      → (item : MemoryForkTreeItem B I) × (HashMap.get a t.blocks ≡ some item) × (item.depth ≡ d)
  AncestorAt-get (here item g h same) = (item, rw (← same) g, h)
  AncestorAt-get (up p item g n m) = AncestorAt-get m

  pub AncestorAt-trans :
      {t : MemoryForkTree B I} {k a c : I} {d d' : ℕ}
      → AncestorAt t k d a
      → AncestorAt t a d' c
      → AncestorAt t k d' c
  AncestorAt-trans (here item g h same) m = rw same m
  AncestorAt-trans (up p item g n l) m = up p item g n (AncestorAt-trans l m)

  AncestorAt-le :
      {t : MemoryForkTree B I} {k a : I} {d : ℕ}
      → IsLinked t
      → (item : MemoryForkTreeItem B I) → HashMap.get k t.blocks ≡ some item
      → AncestorAt t k d a
      → d ≤ item.depth
  AncestorAt-le l item g (here other g' h same) = ground arith
  AncestorAt-le {k = k} l item g (up p other g' n m) =
      let f = l.below k p other g' n in let below = AncestorAt-le l f.0 f.1 m in ground arith

  -- A block has one ancestor at most at a depth.
  pub AncestorAt-unique :
      {t : MemoryForkTree B I} {k a a' : I} {d : ℕ}
      → IsLinked t
      → AncestorAt t k d a
      → AncestorAt t k d a'
      → a ≡ a'
  AncestorAt-unique l (here item g h same) (here other g' h' same') = sym same ∙ same'
  AncestorAt-unique {k = k} l (here item g h same) (up p other g' n m) =
      let f = l.below k p other g' n in
      let below = AncestorAt-le l f.0 f.1 m in absurd (ground arith)
  AncestorAt-unique {k = k} l (up p other g' n m) (here item g h same) =
      let f = l.below k p other g' n in
      let below = AncestorAt-le l f.0 f.1 m in absurd (ground arith)
  AncestorAt-unique {t} {a' = a'} {d = d} l (up p item g n m) (up q other g' n' m') =
      let together : q ≡ p = ground arith in
      AncestorAt-unique l m (subst (λ x. AncestorAt t x d a') together m')
