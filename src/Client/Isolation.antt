-- ===== src/Client/Isolation.antt =====
-- What an import (blockchain/tests/simple.rs) leaves as it was at the blocks that the chain had before.
use rust_chain.Prelude.{
  ℕ, ◌+◌, ◌%◌, ◌≡◌, ◌≢◌, ◌≤◌, refl, false, none, some, [], arith, ok, ◌==◌, ◌∙◌,
}
use rust_chain.Prelude.Eq.{nat_eq}
use rust_chain.Prelude.HashMap
use rust_chain.Prelude.BTreeMap.{before_iff}
use rust_chain.Memory.Chain.{MemoryForkTreeItem, Unique, memory_fork_tree}
use rust_chain.Memory.Chain.Lookup.{new_item}
use rust_chain.Memory.State.{history_of, get}
use rust_chain.Memory.State.Changes.{written-write_changes}
use rust_chain.Memory.State.Shallower.{has_shallower-write_changes}
use rust_chain.Memory.State.Inherit.{IsAt, get-memory}
use rust_chain.Memory.State.Written.{written_in}
use rust_chain.Memory.Transactional.{new}
use rust_chain.Client.{block_id_eq, block_identified, BlockId, Block, ChainData, valid_seal, import}
use rust_chain.Client.Changes.{changes_of}
use rust_chain.Client.Import.{extended, get-extended, import_lem}
use rust_chain.Client.Reads.{IsSound, IsAt-grown, grown-IsFiledBy, extended-IsSound}

module _ (u : Unique) (d : ChainData) (block : Block) (parent_id : BlockId)
    (parent : MemoryForkTreeItem Block BlockId) (p : block.parent_id ≡ some parent_id)
    (g : HashMap.get parent_id d.fork_tree.blocks ≡ some parent)
    (fresh : HashMap.get block.id d.fork_tree.blocks ≡ none) (s : IsSound d)
    (z : ((parent.depth + 1) % 4 == 0) ≡ false) where
  -- What was written at another block is what was written there before.
  written_in-extended :
      (n : ℕ) (a : BlockId) (q : ℕ)
      → block.id ≢ a
      → written_in n a (history_of (extended d block parent_id (parent.depth + 1)).state q)
        ≡ written_in n a (history_of d.state q)
  written_in-extended n a q ne =
      let depth = parent.depth + 1 in
      let d' = extended d block parent_id depth in
      ground (
        arith,
        block_id_eq.beq_iff block.id a,
        written-write_changes (IsAt d'.fork_tree) depth block.id d.state
            (changes_of block.extrinsics) q n a
            (new_item block depth [], get-extended d block parent_id depth, refl)
            (grown-IsFiledBy u d block parent_id parent p g fresh s),
      )

  pub get-extended_old :
      (a : BlockId) (item : MemoryForkTreeItem Block BlockId) (q : ℕ)
      → HashMap.get a d.fork_tree.blocks ≡ some item
      → item.depth ≤ parent.depth + 1
      → let d' = extended d block parent_id (parent.depth + 1) in
        get memory_fork_tree d'.state q a d'.fork_tree
        ≡ get memory_fork_tree d.state q a d.fork_tree
  get-extended_old a item q h le =
      let depth = parent.depth + 1 in
      let d' = extended d block parent_id depth in
      let sound = extended-IsSound u d block parent_id parent p g fresh s z in
      let (grown, h', e) =
        IsAt-grown d.fork_tree parent_id block depth item.depth a fresh (item, h, refl) in
      let ne : block.id ≢ a = λ same. absurd (ground (arith, same, fresh, h)) in
      get-memory d'.fork_tree d'.state q a grown sound.0 sound.1 h'
      ∙ ground (
        arith,
        e,
        written_in-extended item.depth a q ne,
        has_shallower-write_changes item.depth depth block.id d.state (changes_of block.extrinsics)
            q,
        before_iff depth item.depth,
        le,
        get-memory d.fork_tree d.state q a item s.0 s.1 h,
      )

  -- On a sound chain the import of a sealed block with a new id, a known parent and a depth that 4
  -- does not divide changes no read, its errors included, of any key at any block of the chain that
  -- is not deeper than the one imported.
  pub import-reads_old :
      block.seal ≡ valid_seal
      → (a : BlockId) (item : MemoryForkTreeItem Block BlockId) (q : ℕ)
      → HashMap.get a d.fork_tree.blocks ≡ some item
      → item.depth ≤ parent.depth + 1
      → (d' : ChainData) × (import u (new d) block ≡ (ok tt, new d'))
        × (get memory_fork_tree d'.state q a d'.fork_tree
            ≡ get memory_fork_tree d.state q a d.fork_tree)
  import-reads_old v a item q h le = (
    extended d block parent_id (parent.depth + 1),
    import_lem u d block ∙ ground arith,
    get-extended_old a item q h le,
  )
