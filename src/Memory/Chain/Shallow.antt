-- ===== src/Memory/Chain/Shallow.antt =====
-- How deep a tree of blockchain/src/memory/chain.rs gets.
use rust_chain.Prelude.{ℕ, ◌+◌, ◌<◌, ◌≡◌, ◌∙◌, List, [], ◌∷◌, some, arith}
use rust_chain.Prelude.Eq.{Eq}
use rust_chain.Prelude.HashMap
use rust_chain.Block.{Identified}
use rust_chain.Memory.Chain.Insert.{insert_cases}
use rust_chain.Memory.Chain.Lookup.{push_child-get, get-store}
use rust_chain.Memory.Chain.{
  MemoryForkTree, MemoryForkTreeItem, Unique, new, push_child, store, insert,
}

module _ {ℓ} {B I : Type ℓ} ⦃e : Eq I⦄ ⦃b : Identified B I⦄ where
  abbrev pub IsShallow : MemoryForkTree B I → Type ℓ
  IsShallow t =
      (k : I) (item : MemoryForkTreeItem B I)
      → HashMap.get k t.blocks ≡ some item
      → (item.depth < 4) × (item.ancestors ≡ [])

  pub new-IsShallow : IsShallow new
  unfolding new HashMap.get
  new-IsShallow k item h = ground arith

  push_child-IsShallow :
      (t : MemoryForkTree B I) (parent_id id : I)
      → IsShallow t
      → IsShallow (push_child t parent_id id)
  push_child-IsShallow t parent_id id s k item h =
      let m = push_child-get t parent_id id k item h in
      let (low, plain) = s k m.0 m.1 in (omega (arith, m.3), m.4 ∙ plain)

  store-IsShallow :
      (t : MemoryForkTree B I) (block : B) (depth : ℕ)
      → depth < 4
      → IsShallow t
      → IsShallow (store t block depth [])
  store-IsShallow t block depth l s k item h =
      ground (arith, get-store t block depth [] k, s k item)

  -- One `insert`, whatever it answers.
  pub insert-IsShallow :
      (u : Unique) (t : MemoryForkTree B I) (block : B)
      → IsShallow t
      → IsShallow (insert u t block).1
  insert-IsShallow u t block s =
      insert_cases (λ r. IsShallow r.1) u t block
        (λ root. store-IsShallow t block 0 (omega arith) s) (λ p e₁ e₂. s)
        (λ p parent e₁ e₂ z. push_child-IsShallow t p (b.id block) s)
        (λ p parent e₁ e₂ n.
          store-IsShallow (push_child t p (b.id block)) block (parent.depth + 1)
            (ground (arith, s p parent e₂)) (push_child-IsShallow t p (b.id block) s))

  -- A sequence of calls of `insert` on one tree; the caller goes on after an error.
  unfoldable pub insert_all : Unique → MemoryForkTree B I → List B → MemoryForkTree B I
  insert_all u t [] = t
  insert_all u t (block ∷ blocks) = insert_all u (insert u t block).1 blocks

  insert_all-IsShallow :
      (u : Unique) (t : MemoryForkTree B I) (blocks : List B)
      → IsShallow t
      → IsShallow (insert_all u t blocks)
  unfolding insert_all
  insert_all-IsShallow u t [] s = s
  insert_all-IsShallow u t (block ∷ blocks) s =
      insert_all-IsShallow u (insert u t block).1 blocks (insert-IsShallow u t block s)

  -- Whatever blocks are inserted into a new tree, in whatever order, none is ever deeper than 3,
  -- and none has a skip list.
  pub insert_all-new_shallow :
      (u : Unique) (blocks : List B) (k : I) (item : MemoryForkTreeItem B I)
      → HashMap.get k (insert_all u new blocks).blocks ≡ some item
      → (item.depth < 4) × (item.ancestors ≡ [])
  insert_all-new_shallow u blocks = insert_all-IsShallow u new blocks new-IsShallow
