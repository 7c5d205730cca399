-- ===== src/Memory/Chain.antt =====
-- blockchain/src/memory/chain.rs: `MemoryForkTree`. Depths are plain numbers: `usize` holds them,
-- since `insert` raises a depth by one at a time.
pub mod Ancestor
pub mod Skip
pub mod Insert
pub mod Lookup
pub mod Shallow
pub mod Links
pub mod Index
pub mod Nearest
pub mod Reads
pub mod Relation
pub mod Loop
use rust_chain.Prelude.{
  ℕ, zero, suc, ◌+◌, ◌-◌, ◌%◌, ◌^◌, Bool, true, false, ◌&&◌, Option, none, some, List, [], ◌∷◌,
  ◌++◌, map, filter, ltb, leb, ◌==◌, if◌then◌else◌, Result, ok, err, diverged, ok_or, map_err,
  ◌>>=◌, ◌↔◌, Mem,
}
use rust_chain.Prelude.Eq.{Eq, nat_eq}
use rust_chain.Prelude.HashMap
use rust_chain.Prelude.HashMap.{HashMap}
use mathlib.Core.Option
use rust_chain.Block.{Identified}
use rust_chain.ForkTree.{ForkTree, ForkTreeMut}

pub record MemoryForkTreeItem {ℓ} (B I : Type ℓ) : Type ℓ where
  pub block : B
  pub depth : ℕ
  pub children : List I
  pub ancestors : List (ℕ × I)

pub record MemoryForkTree {ℓ} (B I : Type ℓ) : Type ℓ where
  pub blocks : HashMap I (MemoryForkTreeItem B I)
  pub depths : HashMap ℕ (List I)

-- `MemoryForkTree::new`.
unfoldable pub new {ℓ} : {B I : Type ℓ} → MemoryForkTree B I
new = record { blocks = []; depths = [] }

pub data QueryError : Type 0 where
  unknown_block : QueryError
  invalid_ancestor_depth : QueryError

pub data InsertError : Type 0 where
  unknown_parent : InsertError
  query : QueryError → InsertError

-- `Itertools::unique`, a library's: it drops repetitions, and neither loses nor adds a value.
pub record Unique : Type 0 where
  pub unique : List ℕ → List ℕ
  pub unique_mem : (a : ℕ) (xs : List ℕ) → Mem a (unique xs) ↔ Mem a xs

-- `SKIP_DEPTHS`.
abbrev pub skip_depths : List ℕ
skip_depths =
    4 ^ 1
    ∷ 4 ^ 2
    ∷ 4 ^ 3
    ∷ 4 ^ 4
    ∷ 4 ^ 5
    ∷ 4 ^ 6
    ∷ 4 ^ 7
    ∷ 4 ^ 8
    ∷ 4 ^ 9
    ∷ 4 ^ 10
    ∷ 4 ^ 11
    ∷ 4 ^ 12
    ∷ 4 ^ 13
    ∷ 4 ^ 14
    ∷ 4 ^ 15
    ∷ 4 ^ 16
    ∷ []

-- The iterator of `insert` over `SKIP_DEPTHS`, before `unique`.
unfoldable pub skip_targets : ℕ → List ℕ
skip_targets depth =
    map (λ skip_depth. depth - skip_depth)
      (filter (λ skip_depth. leb skip_depth depth && (depth % skip_depth == 0)) skip_depths)

module _ {ℓ} {I : Type ℓ} where
  -- The closure of `reduce`, over the rest of the iterator.
  unfoldable pub reduce_min : ℕ × I → List (ℕ × I) → ℕ × I
  reduce_min m [] = m
  reduce_min (min_depth, min_id) ((d, id) ∷ rest) =
      reduce_min (if ltb d min_depth then (d, id) else (min_depth, min_id)) rest

  -- `.reduce(…).map(|(_, id)| id).unwrap_or(parent_id)`.
  unfoldable pub reduce_or : I → List (ℕ × I) → I
  reduce_or parent_id [] = parent_id
  reduce_or parent_id (a ∷ rest) = (reduce_min a rest).1

  -- The ancestor to which the loop of `ancestor_id_at_depth` goes next.
  unfoldable pub next_ancestor_id : List (ℕ × I) → ℕ → I → I
  unfolding reduce_or reduce_min
  next_ancestor_id ancestors ancestor_depth parent_id =
      reduce_or parent_id (filter (λ a. leb ancestor_depth a.0) ancestors)

  -- `self.depths.entry(depth).or_default().push(block_id)`.
  unfoldable pub push_depth : ℕ → I → HashMap ℕ (List I) → HashMap ℕ (List I)
  push_depth depth block_id depths =
      HashMap.insert depth (Option.get_or (HashMap.get depth depths) [] ++ block_id ∷ []) depths

module _ {ℓ} {B I : Type ℓ} ⦃e : Eq I⦄ ⦃b : Identified B I⦄ where
  -- `ForkTree::block`.
  unfoldable pub block : MemoryForkTree B I → I → Result B QueryError
  block t id = do item ← ok_or (HashMap.get id t.blocks) unknown_block; ok item.block

  -- `ForkTree::block_depth`.
  unfoldable pub block_depth : MemoryForkTree B I → I → Result ℕ QueryError
  block_depth t id = do item ← ok_or (HashMap.get id t.blocks) unknown_block; ok item.depth

  -- The `loop` of `ancestor_id_at_depth`, on fuel.
  unfoldable pub ancestor_loop :
      ℕ → MemoryForkTree B I → MemoryForkTreeItem B I → ℕ → Result I QueryError
  ancestor_loop zero t current ancestor_depth = diverged
  ancestor_loop (suc fuel) t current ancestor_depth =
      let walk : Result I QueryError = (do
        parent_id ← ok_or (b.parent_id current.block) invalid_ancestor_depth
        next ←
            ok_or
              (HashMap.get (next_ancestor_id current.ancestors ancestor_depth parent_id) t.blocks)
              unknown_block
        ancestor_loop fuel t next ancestor_depth) in
      if ltb current.depth ancestor_depth
      then err invalid_ancestor_depth
      else if current.depth == ancestor_depth
      then ok (b.id current.block)
      else walk

  -- `ForkTree::ancestor_id_at_depth`. Its loop gets a round for each depth below the block.
  unfoldable pub ancestor_id_at_depth : MemoryForkTree B I → I → ℕ → Result I QueryError
  unfolding ancestor_loop
  ancestor_id_at_depth t id ancestor_depth = do
    current ← ok_or (HashMap.get id t.blocks) unknown_block
    if ltb ancestor_depth current.depth
        then err invalid_ancestor_depth
        else ancestor_loop (suc current.depth) t current ancestor_depth

  -- `impl ForkTree for MemoryForkTree`.
  abbrev pub memory_fork_tree : ForkTree (MemoryForkTree B I) B I QueryError
  memory_fork_tree = record {
    block = block;
    block_depth = block_depth;
    ancestor_id_at_depth = ancestor_id_at_depth;
  }

  -- `parent.children.push(block.id())`.
  unfoldable pub push_child : MemoryForkTree B I → I → I → MemoryForkTree B I
  push_child t parent_id id = record t {
    blocks =
        HashMap.modify parent_id
          (λ (parent : MemoryForkTreeItem B I). record parent {
            children = parent.children ++ id ∷ [];
          })
          t.blocks;
  }

  -- The first `if let` of `insert`: the new block's depth, with the block entered among the
  -- children of its parent.
  unfoldable pub link_parent : MemoryForkTree B I → B → Result ℕ InsertError × MemoryForkTree B I
  unfolding push_child
  link_parent t block = elim (b.parent_id block) [
    | none ↦ (ok 0, t)
    | some parent_id ↦ elim (HashMap.get parent_id t.blocks) [
      | none ↦ (err unknown_parent, t)
      | some parent ↦ (ok (parent.depth + 1), push_child t parent_id (b.id block))
    ]
  ]

  -- The loop over `ancestor_depths`.
  unfoldable pub collect_ancestors :
      MemoryForkTree B I → I → List ℕ → Result (List (ℕ × I)) QueryError
  collect_ancestors t parent_id [] = ok []
  collect_ancestors t parent_id (ancestor_depth ∷ rest) = do
    ancestor ← ancestor_id_at_depth t parent_id ancestor_depth
    ancestors ← collect_ancestors t parent_id rest
    ok ((ancestor_depth, ancestor) ∷ ancestors)

  -- The second `if let` of `insert`: the skip list.
  unfoldable pub build_ancestors :
      Unique → MemoryForkTree B I → B → ℕ → Result (List (ℕ × I)) InsertError
  unfolding skip_targets collect_ancestors
  build_ancestors u t block depth = elim (b.parent_id block) [
    | none ↦ ok []
    | some parent_id ↦ map_err query (collect_ancestors t parent_id (u.unique (skip_targets depth)))
  ]

  -- The end of `insert`: the block enters both maps.
  unfoldable pub store : MemoryForkTree B I → B → ℕ → List (ℕ × I) → MemoryForkTree B I
  unfolding push_depth
  store t block depth ancestors = record {
    blocks =
        HashMap.insert (b.id block)
          (record { block = block; depth = depth; children = []; ancestors = ancestors }) t.blocks;
    depths = push_depth depth (b.id block) t.depths;
  }

  -- `insert`, once the depth is known: an error of the skip list leaves the tree as it was linked.
  unfoldable pub finish_insert :
      Unique → MemoryForkTree B I → B → ℕ → Result (Unit {0}) InsertError × MemoryForkTree B I
  unfolding build_ancestors store
  finish_insert u t block depth = elim (build_ancestors u t block depth) [
    | ok ancestors ↦ (ok tt, store t block depth ancestors)
    | err error ↦ (err error, t)
    | diverged ↦ (diverged, t)
  ]

  -- `ForkTreeMut::insert`.
  unfoldable pub insert :
      Unique → MemoryForkTree B I → B → Result (Unit {0}) InsertError × MemoryForkTree B I
  unfolding link_parent finish_insert
  insert u t block =
      let (linked, t') = link_parent t block in
      elim linked [
        | ok depth ↦ finish_insert u t' block depth
        | err error ↦ (err error, t')
        | diverged ↦ (diverged, t')
      ]

  -- `impl ForkTreeMut for MemoryForkTree`.
  abbrev pub memory_fork_tree_mut : Unique → ForkTreeMut (MemoryForkTree B I) B InsertError
  memory_fork_tree_mut u = record { insert = insert u }
