-- ===== src/Memory/Chain/Lookup.antt =====
-- What the writes of `insert` leave to read: blockchain/src/memory/chain.rs, lines 163 and 193.
use rust_chain.Prelude.{
  ℕ, ◌≡◌, List, [], ◌∷◌, ◌++◌, some, true, false, Option-cases, inl, inr, arith,
}
use mathlib.Core.Option
use rust_chain.Prelude.Eq.{Eq, ◌=?◌}
use rust_chain.Prelude.HashMap
use rust_chain.Block.{Identified}
use rust_chain.Memory.Chain.{MemoryForkTree, MemoryForkTreeItem, push_child, store}

module _ {ℓ} {B I : Type ℓ} ⦃e : Eq I⦄ ⦃b : Identified B I⦄ where
  abbrev pub add_child : I → MemoryForkTreeItem B I → MemoryForkTreeItem B I
  add_child id item = record item { children = item.children ++ id ∷ [] }

  pub get-push_child :
      (t : MemoryForkTree B I) (parent_id id q : I)
      → HashMap.get q (push_child t parent_id id).blocks ≡ elim (parent_id =? q) [
        | true ↦ Option.map (add_child id) (HashMap.get q t.blocks)
        | false ↦ HashMap.get q t.blocks
      ]
  unfolding push_child
  get-push_child t parent_id id q = HashMap.get-modify parent_id q (add_child id) t.blocks

  -- An item read after a child was pushed is one read before, with other children at most.
  pub push_child-get :
      (t : MemoryForkTree B I) (parent_id id q : I) (item : MemoryForkTreeItem B I)
      → HashMap.get q (push_child t parent_id id).blocks ≡ some item
      → (old : MemoryForkTreeItem B I) × (HashMap.get q t.blocks ≡ some old)
        × (item.block ≡ old.block)
        × (item.depth ≡ old.depth)
        × (item.ancestors ≡ old.ancestors)
  push_child-get t parent_id id q item h = elim (Option-cases (HashMap.get q t.blocks)) [
    | inl n ↦ absurd (ground (arith, get-push_child t parent_id id q))
    | inr (old, g) ↦ (
      old,
      g,
      ground (arith, get-push_child t parent_id id q),
      ground (arith, get-push_child t parent_id id q),
      ground (arith, get-push_child t parent_id id q),
    )
  ]

  abbrev pub new_item : B → ℕ → List (ℕ × I) → MemoryForkTreeItem B I
  new_item block depth ancestors = record {
    block = block;
    depth = depth;
    children = [];
    ancestors = ancestors;
  }

  pub get-store :
      (t : MemoryForkTree B I) (block : B) (depth : ℕ) (ancestors : List (ℕ × I)) (q : I)
      → HashMap.get q (store t block depth ancestors).blocks ≡ elim (b.id block =? q) [
        | true ↦ some (new_item block depth ancestors)
        | false ↦ HashMap.get q t.blocks
      ]
  unfolding store
  get-store t block depth ancestors q = HashMap.get-insert (b.id block) q _ t.blocks
