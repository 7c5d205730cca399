-- ===== src/Memory/Chain/Ancestor.antt =====
-- What `ancestor_id_at_depth` and `is_ancestor` of blockchain/src/memory/chain.rs and
-- blockchain/src/chain.rs answer on every tree.
use rust_chain.Prelude.{
  ℕ, suc, ◌<◌, ◌≡◌, some, ok, err, ok_or, ◌>>=◌, ◌==◌, if◌then◌else◌, Bool-cases, inl, inr, arith,
}
use rust_chain.Prelude.Eq.{Eq, ◌=?◌}
use rust_chain.Prelude.HashMap
use rust_chain.Block.{Identified}
use rust_chain.ForkTree.{is_ancestor}
use rust_chain.Memory.Chain.{
  MemoryForkTree, MemoryForkTreeItem, unknown_block, invalid_ancestor_depth, block_depth,
  ancestor_loop, ancestor_id_at_depth, memory_fork_tree,
}

module _ {ℓ} {B I : Type ℓ} ⦃e : Eq I⦄ ⦃b : Identified B I⦄ where
  -- One round decides the loop, from a block that is not below the target.
  pub ancestor_loop_stops :
      (fuel : ℕ) (t : MemoryForkTree B I) (current : MemoryForkTreeItem B I) (depth : ℕ)
      → ¬ (depth < current.depth)
      → ancestor_loop (suc fuel) t current depth
        ≡ (if current.depth == depth then ok (b.id current.block) else err invalid_ancestor_depth)
  unfolding ancestor_loop
  ancestor_loop_stops fuel t current depth h = ground arith

  pub ancestor_id_at_depth_lem :
      (t : MemoryForkTree B I) (id : I) (depth : ℕ)
      → ancestor_id_at_depth t id depth ≡ (
          ok_or (HashMap.get id t.blocks) unknown_block >>= λ item.
          if item.depth == depth then ok (b.id item.block) else err invalid_ancestor_depth)
  unfolding ancestor_id_at_depth
  ancestor_id_at_depth_lem t id depth = ground arith

  pub block_depth_lem :
      (t : MemoryForkTree B I) (id : I) (item : MemoryForkTreeItem B I)
      → HashMap.get id t.blocks ≡ some item
      → block_depth t id ≡ ok item.depth
  unfolding block_depth
  block_depth_lem t id item g = ground arith

  -- `is_ancestor` on a memory tree tells whether two blocks of one depth are the same, and fails
  -- on any two blocks of different depths.
  pub is_ancestor-memory :
      (t : MemoryForkTree B I) (id ancestor_id : I) (item other : MemoryForkTreeItem B I)
      → HashMap.get id t.blocks ≡ some item
      → HashMap.get ancestor_id t.blocks ≡ some other
      → is_ancestor memory_fork_tree t id ancestor_id ≡ (
          if item.depth == other.depth
          then ok (b.id item.block =? ancestor_id)
          else err invalid_ancestor_depth)
  unfolding is_ancestor
  is_ancestor-memory t id ancestor_id item other g h =
      rw (block_depth_lem t ancestor_id other h, ancestor_id_at_depth_lem t id other.depth, g)
        (elim (Bool-cases (item.depth == other.depth)) [ inl z ↦ rw z | inr n ↦ rw n ])
