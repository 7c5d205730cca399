-- ===== src/Client/Scenario.antt =====
-- The test of blockchain/tests/simple.rs: a genesis, and a block that is built on it and imported.
use rust_chain.Prelude.{
  ℕ, ◌+◌, ◌%◌, ◌^◌, ◌≡◌, ◌≢◌, refl, false, none, some, Option, List, [], arith, ok, err, returned,
  ◌∙◌,
}
use rust_chain.Prelude.Eq.{nat_eq}
use rust_chain.Prelude.HashMap
use rust_chain.Prelude.BTreeMap.{before_iff}
use rust_chain.Memory.Chain.{Unique, memory_fork_tree, invalid_ancestor_depth, new as new_tree}
use rust_chain.Memory.Chain.Lookup.{new_item, get-store}
use rust_chain.Memory.State.{history_of, get, new as new_state}
use rust_chain.Memory.State.Changes.{last_change}
use rust_chain.Memory.State.Shallower.{has_shallower-write_changes}
use rust_chain.Memory.State.Inherit.{has_shallower}
use rust_chain.Memory.State.Reads.{get-write_changes}
use rust_chain.Memory.Transactional.{new, deref}
use rust_chain.Client.{
  block_id_eq, block_identified, BlockId, Block, Extrinsic, Chain, ChainData, import,
}
use rust_chain.Client.Genesis.{start}
use rust_chain.Client.Changes.{last_set}
use rust_chain.Client.Import.{extended, import_lem}
use rust_chain.Client.Reads.{get-extended_state}
use rust_chain.Client.Isolation.{get-extended_old}
use rust_chain.Client.Build.{build, child_block, build_lem}
use rust_chain.Client.Life.{genesis_data, get-genesis, genesis_data-IsHealthy, start_empty}

module _ (u : Unique) (genesis : Block) (genesis_state : List (ℕ × Option ℕ))
    (p : genesis.parent_id ≡ none) (extrinsics : List Extrinsic) where
  new_state_shallow :
      (q : ℕ) → has_shallower 1 (history_of {I = BlockId} {V = ℕ} new_state q) ≡ false
  unfolding history_of new_state HashMap.get has_shallower
  new_state_shallow q = refl

  -- The id of the built block is not the one of the genesis.
  child_fresh :
      HashMap.get
        (child_block genesis.id extrinsics).id
        (genesis_data genesis genesis_state).fork_tree.blocks
      ≡ none
  unfolding new_tree HashMap.get
  child_fresh =
      let next = (genesis.id.number + 1) % 2 ^ 32 in
      let ne : genesis.id.number ≢ next = omega arith in
      let child = (child_block genesis.id extrinsics).id in
      get-store new_tree genesis 0 [] child
      ∙ ground (arith, block_id_eq.beq_iff genesis.id child, ne)

  get-genesis_state :
      (q : ℕ)
      → let d = genesis_data genesis genesis_state in
        get memory_fork_tree d.state q genesis.id d.fork_tree
        ≡ elim (last_change q genesis_state) [ some v ↦ ok v | none ↦ ok none ]
  unfolding get history_of new_state HashMap.get
  get-genesis_state q =
      get-write_changes (genesis_data genesis genesis_state).fork_tree new_state genesis_state q
        genesis.id (new_item genesis 0 []) (genesis_data-IsHealthy u genesis genesis_state p).0.0
        (λ key. tt) (get-genesis genesis genesis_state)

  -- A genesis without extrinsics and its state start a chain, and a block with any extrinsics can be
  -- built on the genesis and imported. A key then reads at the block as its last setting; one that the
  -- block does not set is absent there, or, when the genesis state names it, cannot be read; and at
  -- the genesis every key reads as the genesis state has it.
  pub start-reads :
      genesis.extrinsics ≡ []
      → (q : ℕ)
      → (chain : Chain) × (start u genesis genesis_state ≡ returned (ok tt, chain))
        × (block : Block) × (d' : ChainData) × (build chain genesis.id extrinsics ≡ ok block)
        × (import u chain block ≡ (ok tt, new d'))
        × (get memory_fork_tree d'.state q block.id d'.fork_tree ≡ elim (last_set q extrinsics) [
          | some v ↦ ok (some v)
          | none ↦ elim (last_change q genesis_state) [
            | some v ↦ err invalid_ancestor_depth
            | none ↦ ok none
          ]
        ])
        × (get memory_fork_tree d'.state q genesis.id d'.fork_tree
            ≡ elim (last_change q genesis_state) [ some v ↦ ok v | none ↦ ok none ])
  unfolding new deref
  start-reads empty q =
      let d = genesis_data genesis genesis_state in
      let g = get-genesis genesis genesis_state in
      let child = child_block genesis.id extrinsics in
      let parent = new_item genesis 0 [] in
      let sound = (genesis_data-IsHealthy u genesis genesis_state p).0 in
      (
        new d,
        start_empty u genesis genesis_state p empty,
        child,
        extended d child genesis.id 1,
        build_lem (new d) genesis.id extrinsics ∙ ground (arith, g),
        import_lem u d child ∙ ground (arith, g),
        get-extended_state u d child genesis.id parent refl g child_fresh sound refl q
            ∙ ground (
              arith,
              has_shallower-write_changes 1 0 genesis.id new_state genesis_state q,
              before_iff 0 1,
              new_state_shallow q,
            ),
        get-extended_old u d child genesis.id parent refl g child_fresh sound refl genesis.id parent
              q g (omega arith)
            ∙ get-genesis_state q,
      )
