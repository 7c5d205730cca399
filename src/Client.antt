-- ===== src/Client.antt =====
-- blockchain/tests/simple.rs: a chain over the memory backends, with fixed hashes and seals.
pub mod Genesis
pub mod Changes
pub mod Import
pub mod Reads
pub mod Isolation
pub mod Importable
pub mod View
pub mod Order
pub mod Refines
pub mod Build
pub mod Life
pub mod Scenario
use rust_chain.Prelude.{
  ℕ, ◌+◌, ◌%◌, ◌^◌, Bool, true, false, ◌&&◌, ◌==◌, ==_iff, Option, none, some, List, [], ◌∷◌, ◌++◌,
  ◌≡◌, ◌↔◌, arith, Result, ok, err, diverged, map_err, ◌>>=◌, if◌then◌else◌,
}
use rust_chain.Prelude.Eq.{Eq, nat_eq}
use rust_chain.Block.{Identified, Keyed, Headered}
use rust_chain.ForkTree.{ImportBlock, BlockBuilder}
use rust_chain.FlatState.{OverlayedFlatState, overlayed, into_changeset}
use rust_chain.FlatState
use rust_chain.Memory.Chain.{
  MemoryForkTree, QueryError, InsertError, Unique, new as new_tree, insert, block as tree_block,
  memory_fork_tree,
}
use rust_chain.Memory.State.{MemoryFlatState, new as new_state, apply as apply_changes}
use rust_chain.Memory.Transactional.{MemoryTransactional, new as new_copies, apply, deref}

pub data Seal : Type 0 where
  valid_seal invalid_seal : Seal

pub record BlockId : Type 0 where
  pub fork : ℕ
  pub number : ℕ

abbrev same_id : BlockId → BlockId → Bool
same_id a b = a.fork == b.fork && a.number == b.number

pub same_id_iff : (a b : BlockId) → (same_id a b ≡ true) ↔ (a ≡ b)
same_id_iff a b = ground (arith, ==_iff a.fork b.fork, ==_iff a.number b.number)

instance abbrev pub block_id_eq : Eq BlockId
block_id_eq = record { beq = same_id; beq_iff = same_id_iff }

pub data Extrinsic : Type 0 where
  sets : ℕ → ℕ → Extrinsic

pub record Block : Type 0 where
  pub seal : Seal
  pub id : BlockId
  pub parent_id : Option BlockId
  pub number : ℕ
  pub extrinsics : List Extrinsic

pub record Header : Type 0 where
  pub seal : Seal
  pub id : BlockId
  pub parent_id : Option BlockId
  pub number : ℕ

instance abbrev pub block_identified : Identified Block BlockId
block_identified = record { id = λ block. block.id; parent_id = λ block. block.parent_id }

abbrev pub block_keyed : Keyed Block ℕ
block_keyed = record { key = λ block. block.number }

abbrev pub block_headered : Headered Block Header
block_headered = record {
  header = λ block. record {
    seal = block.seal;
    id = block.id;
    parent_id = block.parent_id;
    number = block.number;
  };
}

pub record ChainData : Type 0 where
  pub fork_tree : MemoryForkTree Block BlockId
  pub state : MemoryFlatState ℕ ℕ BlockId

-- `Chain`, which wraps the transactional value.
abbrev pub Chain : Type 0
Chain = MemoryTransactional ChainData

pub data ChainError : Type 0 where
  not_sealed : ChainError
  cant_import_genesis : ChainError
  fork_tree_insert : InsertError → ChainError
  fork_tree_query : QueryError → ChainError

abbrev pub Overlay : Type 0
Overlay =
    OverlayedFlatState (MemoryFlatState ℕ ℕ BlockId) (MemoryForkTree Block BlockId) BlockId ℕ ℕ

-- The loop over the extrinsics of a block.
unfoldable pub execute : Overlay → List Extrinsic → Overlay
execute overlay [] = overlay
execute overlay (sets key value ∷ extrinsics) =
    execute (FlatState.insert overlay key value) extrinsics

-- `import`, from the changeset on.
unfoldable pub commit : ChainData → Block → Overlay → Result (Unit {0}) ChainError × ChainData
commit chain_data block overlay =
    let (result, state) =
      apply_changes memory_fork_tree chain_data.state (into_changeset overlay) block.id
        chain_data.fork_tree in
    (map_err fork_tree_query result, record chain_data { state = state })

-- `import`, from the outcome of the insert on.
unfoldable pub finish_import :
    Block
    → BlockId
    → ChainData
    → Result (Unit {0}) InsertError × MemoryForkTree Block BlockId
    → Result (Unit {0}) ChainError × ChainData
unfolding commit execute
finish_import block parent_id chain_data (ok _, fork_tree) =
    commit (record chain_data { fork_tree = fork_tree }) block
      (execute (overlayed chain_data.state parent_id fork_tree) block.extrinsics)
finish_import block parent_id chain_data (err error, fork_tree) =
    (err (fork_tree_insert error), record chain_data { fork_tree = fork_tree })
finish_import block parent_id chain_data (diverged, fork_tree) =
    (diverged, record chain_data { fork_tree = fork_tree })

-- The closure of `import`.
unfoldable pub import_data : Unique → Block → ChainData → Result (Unit {0}) ChainError × ChainData
unfolding finish_import
import_data u block chain_data = elim block.parent_id [
  | some parent_id ↦ finish_import block parent_id chain_data (insert u chain_data.fork_tree block)
  | none ↦ (err cant_import_genesis, chain_data)
]

-- `ImportBlock::import`.
unfoldable pub import : Unique → Chain → Block → Result (Unit {0}) ChainError × Chain
unfolding import_data
import u chain block = elim block.seal [
  | valid_seal ↦ apply chain (import_data u block)
  | invalid_seal ↦ (err not_sealed, chain)
]

abbrev pub import_block : Unique → ImportBlock Chain Block ChainError
import_block u = record { import = import u }

pub record ChainBlockBuilder : Type 0 where
  pub chain : Chain
  pub block : Block
  pub overlay : Overlay

-- `BlockBuilder::initialize`. `u32` numbers wrap around, as in a release build.
unfoldable pub initialize : Chain → BlockId → Result ChainBlockBuilder ChainError
initialize chain parent_id = do
  parent ← map_err fork_tree_query (tree_block (deref chain).fork_tree parent_id)
  ok (record {
    chain = chain;
    block = record {
      seal = invalid_seal;
      id = record { fork = parent_id.fork; number = (parent_id.number + 1) % 2 ^ 32 };
      parent_id = some parent_id;
      number = (parent_id.number + 1) % 2 ^ 32;
      extrinsics = [];
    };
    overlay = overlayed (deref chain).state parent_id (deref chain).fork_tree;
  })

unfoldable pub apply_extrinsic :
    ChainBlockBuilder → Extrinsic → Result (Unit {0}) ChainError × ChainBlockBuilder
apply_extrinsic builder extrinsic = (
  ok tt,
  record builder {
    block = record builder.block { extrinsics = builder.block.extrinsics ++ extrinsic ∷ [] };
  },
)

unfoldable pub finalize : ChainBlockBuilder → Seal → Result Block ChainError
finalize builder post_log = ok (record builder.block { seal = post_log })

abbrev pub block_builder :
    BlockBuilder ChainBlockBuilder Chain Block BlockId Extrinsic (Unit {0}) Seal ChainError
block_builder = record {
  initialize = λ chain parent_id pre_log. initialize chain parent_id;
  apply_extrinsic = apply_extrinsic;
  finalize = finalize;
}
