-- ===== src/Client/Build.antt =====
-- Building a block on a chain of blockchain/tests/simple.rs and importing it.
use rust_chain.Prelude.{
  ◌+◌, ◌%◌, ◌^◌, ◌≡◌, refl, sym, inl, inr, Option-cases, ◌∙◌, ap, some, none, List, [], ◌∷◌, ◌++◌,
  Result, ok, err, diverged, ◌>>=◌, arith, ◌==◌, if◌then◌else◌,
}
use mathlib.Core.List.{append_assoc, append-nil}
use rust_chain.Prelude.HashMap
use rust_chain.Memory.Chain.{
  MemoryForkTreeItem, Unique, unknown_block, query, invalid_ancestor_depth, block as tree_block,
}
use rust_chain.Memory.Transactional.{new, deref}
use rust_chain.Client.{
  block_id_eq, block_identified, BlockId, Block, Extrinsic, ChainData, Chain, ChainError,
  valid_seal, fork_tree_insert, fork_tree_query, ChainBlockBuilder, initialize, apply_extrinsic,
  finalize, import,
}
use rust_chain.Client.Import.{extended, import_lem}

unfoldable pub apply_extrinsics :
    ChainBlockBuilder → List Extrinsic → Result (Unit {0}) ChainError × ChainBlockBuilder
unfolding apply_extrinsic
apply_extrinsics builder [] = (ok tt, builder)
apply_extrinsics builder (extrinsic ∷ extrinsics) =
    let rest = apply_extrinsics (apply_extrinsic builder extrinsic).1 extrinsics in
    elim (apply_extrinsic builder extrinsic).0 [
      | ok _ ↦ rest
      | err error ↦ (err error, (apply_extrinsic builder extrinsic).1)
      | diverged ↦ (diverged, (apply_extrinsic builder extrinsic).1)
    ]

-- A block is built below a parent: initialize, a call of apply_extrinsic each, finalize.
unfoldable pub build : Chain → BlockId → List Extrinsic → Result Block ChainError
unfolding initialize apply_extrinsics finalize
build chain parent_id extrinsics = do
  builder ← initialize chain parent_id
  let built = apply_extrinsics builder extrinsics
  done ← built.0
  finalize built.1 valid_seal

-- The block that is built.
abbrev pub child_block : BlockId → List Extrinsic → Block
child_block parent_id extrinsics = record {
  seal = valid_seal;
  id = record { fork = parent_id.fork; number = (parent_id.number + 1) % 2 ^ 32 };
  parent_id = some parent_id;
  number = (parent_id.number + 1) % 2 ^ 32;
  extrinsics = extrinsics;
}

apply_extrinsics_lem :
    (builder : ChainBlockBuilder) (extrinsics : List Extrinsic)
    → apply_extrinsics builder extrinsics ≡ (
      ok tt,
      record builder {
        block = record builder.block { extrinsics = builder.block.extrinsics ++ extrinsics };
      },
    )
unfolding apply_extrinsics
apply_extrinsics_lem builder [] =
    ap (λ es. (ok tt, record builder { block = record builder.block { extrinsics = es } }))
      (sym (append-nil builder.block.extrinsics))
apply_extrinsics_lem builder (extrinsic ∷ extrinsics) =
    apply_extrinsics_lem (apply_extrinsic builder extrinsic).1 extrinsics
    ∙ ap (λ es. (ok tt, record builder { block = record builder.block { extrinsics = es } }))
        (append_assoc builder.block.extrinsics (extrinsic ∷ []) extrinsics)

-- A block is built below a parent that the tree of the first copy has, and is then the child of it with
-- the extrinsics, in their order; below any other the call fails.
pub build_lem :
    (chain : Chain) (parent_id : BlockId) (extrinsics : List Extrinsic)
    → build chain parent_id extrinsics
      ≡ elim (HashMap.get parent_id (deref chain).fork_tree.blocks) [
        | some parent ↦ ok (child_block parent_id extrinsics)
        | none ↦ err (fork_tree_query unknown_block)
      ]
unfolding build tree_block
build_lem chain parent_id extrinsics =
    elim (Option-cases (HashMap.get parent_id (deref chain).fork_tree.blocks)) [
      | inl n ↦ rw (n, tree_block)
      | inr (parent, g) ↦ rw (g, tree_block, apply_extrinsics_lem)
    ]

-- On two equal copies a block can be built below every block of the tree. What is built is imported
-- unless 4 divides its depth, when it is refused and the chain is left as it was.
pub import-build :
    (u : Unique) (d : ChainData) (parent_id : BlockId) (extrinsics : List Extrinsic)
    (parent : MemoryForkTreeItem Block BlockId)
    → HashMap.get parent_id d.fork_tree.blocks ≡ some parent
    → (block : Block) × (build (new d) parent_id extrinsics ≡ ok block)
      × (block.parent_id ≡ some parent_id)
      × (import u (new d) block ≡ (
          if (parent.depth + 1) % 4 == 0
          then (err (fork_tree_insert (query invalid_ancestor_depth)), new d)
          else (ok tt, new (extended d block parent_id (parent.depth + 1)))))
unfolding new deref
import-build u d parent_id extrinsics parent g = (
  child_block parent_id extrinsics,
  build_lem (new d) parent_id extrinsics ∙ rw g,
  refl,
  import_lem u d (child_block parent_id extrinsics) ∙ ground arith,
)
