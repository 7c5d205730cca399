-- ===== src/Client/Genesis.antt =====
-- The genesis of the test of blockchain/tests/simple.rs. An `assert!` that fails panics.
use rust_chain.Prelude.{
  ℕ, Option, List, [], ◌∷◌, Result, ok, err, diverged, map_err, Outcome, returned, panicked,
}
use rust_chain.Prelude.Eq.{nat_eq}
use rust_chain.Memory.Chain.{Unique, insert, memory_fork_tree, new as new_tree}
use rust_chain.Memory.State.{new as new_state, apply as apply_changes}
use rust_chain.Memory.Transactional.{new, apply_outcome}
use rust_chain.Client.{
  block_id_eq, block_identified, Block, ChainData, Chain, ChainError, fork_tree_insert,
  fork_tree_query,
}

-- The closure that the test applies to import the genesis: once its block is inserted, the
-- extrinsics are asserted to be empty, and then its state is applied.
unfoldable pub import_genesis :
    Unique
    → Block
    → List (ℕ × Option ℕ)
    → ChainData
    → Outcome (Result (Unit {0}) ChainError × ChainData)
import_genesis u genesis genesis_state chain_data =
    let (inserted, fork_tree) = insert u chain_data.fork_tree genesis in
    let (applied, state) =
      apply_changes memory_fork_tree chain_data.state genesis_state genesis.id fork_tree in
    elim inserted [
      | ok _ ↦ elim genesis.extrinsics [
        | [] ↦
            returned
              (map_err fork_tree_query applied, record { fork_tree = fork_tree; state = state })
        | _ ∷ _ ↦ panicked
      ]
      | err error ↦
          returned (err (fork_tree_insert error), record chain_data { fork_tree = fork_tree })
      | diverged ↦ returned (diverged, record chain_data { fork_tree = fork_tree })
    ]

-- The chain that the test makes before any import.
unfoldable pub start :
    Unique → Block → List (ℕ × Option ℕ) → Outcome (Result (Unit {0}) ChainError × Chain)
unfolding import_genesis apply_outcome
start u genesis genesis_state =
    apply_outcome (new (record { fork_tree = new_tree; state = new_state }))
      (import_genesis u genesis genesis_state)
