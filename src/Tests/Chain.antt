-- ===== src/Tests/Chain.antt =====
-- Runs and instances over blockchain/src/memory/chain.rs: a block is an id and its parent's id.
use rust_chain.Prelude.{
  Mem, All, ◌≤◌, ◌<◌, ℕ, ◌≡◌, ◌⊎◌, inl, inr, refl, Option, none, some, List, [], ◌∷◌, true, false,
  ok, err, diverged, arith, ◌==◌, if◌then◌else◌, ◌>>=◌, ok_or,
}
use rust_chain.Prelude.Eq.{nat_eq, ◌=?◌}
use rust_chain.Prelude.HashMap
use rust_chain.Block.{Identified}
use rust_chain.Memory.Chain.{
  MemoryForkTree, MemoryForkTreeItem, Unique, unknown_block, invalid_ancestor_depth, new, block,
  block_depth, ancestor_loop, ancestor_id_at_depth, insert,
}
use rust_chain.Memory.Chain.Ancestor.{ancestor_id_at_depth_lem}
use rust_chain.Memory.Chain.Insert.{insert_result, insert_lem}
use rust_chain.Memory.Chain.Links.{IsLinked, new-IsLinked, insert-IsLinked}
use rust_chain.Memory.Chain.Loop.{HasSkipLists, ancestor_loop-AncestorAt}
use rust_chain.Memory.Chain.{next_ancestor_id, reduce_or, reduce_min}
use rust_chain.Memory.Chain.Nearest.{next_ancestor_id-least}
use rust_chain.Memory.Chain.Index.{IsIndexed, insert_all-new-IsIndexed}
use rust_chain.Memory.Chain.Reads.{block-insert}
use rust_chain.Memory.Chain.Relation.{AncestorAt, here, up}
use rust_chain.Memory.Chain.Shallow.{insert_all, insert_all-new_shallow}

abbrev pub Block : Type 0
Block = ℕ × Option ℕ

instance abbrev pub block_identified : Identified Block ℕ
block_identified = record { id = λ block. block.0; parent_id = λ block. block.1 }

-- On the targets of a skip list, which do not repeat.
abbrev pub no_repetition : Unique
no_repetition = record { unique = λ xs. xs; unique_mem = λ a xs. (λ m. m, λ m. m) }

abbrev pub Tree : Type 0
Tree = MemoryForkTree Block ℕ

-- A chain of five blocks.
abbrev five : List Block
five = (0, none) ∷ (1, some 0) ∷ (2, some 1) ∷ (3, some 2) ∷ (4, some 3) ∷ []

grown : Tree
unfolding new insert_all insert HashMap.get HashMap.insert HashMap.modify
grown = insert_all no_repetition new five

-- The fifth is missing.
grown_reads :
    (block grown 3 ≡ ok (3, some 2))
    × (block grown 4 ≡ err unknown_block)
    × (block_depth grown 3 ≡ ok 3)
    × (ancestor_id_at_depth grown 3 3 ≡ ok 3)
    × (ancestor_id_at_depth grown 3 1 ≡ err invalid_ancestor_depth)
unfolding grown block block_depth ancestor_id_at_depth
grown_reads = (refl, refl, refl, refl, refl)

-- The second of three blocks, inserted again, loses its child and is its parent's child twice.
insert_again :
    let t : Tree =
      insert_all no_repetition new ((0, none) ∷ (1, some 0) ∷ (2, some 1) ∷ (1, some 0) ∷ []) in
    (HashMap.get 1 t.blocks
      ≡ some (record { block = (1, some 0); depth = 1; children = []; ancestors = [] }))
    × (HashMap.get 0 t.blocks
        ≡ some (record { block = (0, none); depth = 0; children = 1 ∷ 1 ∷ []; ancestors = [] }))
unfolding new insert_all insert HashMap.get HashMap.insert HashMap.modify
insert_again = (refl, refl)

-- Two blocks, grown by `insert`.
unfoldable pub root_tree : Tree
unfolding new insert HashMap.get HashMap.insert HashMap.modify
root_tree = (insert no_repetition new (0, none)).1

unfoldable pub pair_tree : Tree
unfolding root_tree
pair_tree = (insert no_repetition root_tree (1, some 0)).1

root_tree-IsLinked : IsLinked root_tree
unfolding root_tree
root_tree-IsLinked = insert-IsLinked no_repetition new (0, none) refl new-IsLinked

pub pair_tree-IsLinked : IsLinked pair_tree
unfolding pair_tree
pair_tree-IsLinked = insert-IsLinked no_repetition root_tree (1, some 0) refl root_tree-IsLinked

insert-IsLinked_example : IsLinked (insert no_repetition pair_tree (2, some 1)).1
unfolding pair_tree
insert-IsLinked_example =
    insert-IsLinked no_repetition pair_tree (2, some 1) refl pair_tree-IsLinked

insert_lem_example : insert no_repetition grown (4, some 3) ≡ insert_result grown (4, some 3)
insert_lem_example = insert_lem no_repetition grown (4, some 3)

-- The refused fifth block is left among its children.
abbrev last_item : MemoryForkTreeItem Block ℕ
last_item = record { block = (3, some 2); depth = 3; children = 4 ∷ []; ancestors = [] }

insert_all-new_shallow_example : (last_item.depth < 4) × (last_item.ancestors ≡ [])
unfolding new insert_all insert HashMap.get HashMap.insert HashMap.modify ancestor_id_at_depth
insert_all-new_shallow_example = insert_all-new_shallow no_repetition five 3 last_item refl

block-insert_example :
    block (insert no_repetition pair_tree (2, some 1)).1 2
    ≡ elim (insert no_repetition pair_tree (2, some 1)).0 [
      | ok _ ↦ elim (◌=?◌ {A = ℕ} 2 2) [ true ↦ ok (2, some 1) | false ↦ block pair_tree 2 ]
      | err _ ↦ block pair_tree 2
      | diverged ↦ block pair_tree 2
    ]
block-insert_example = block-insert no_repetition pair_tree (2, some 1) 2

ancestor_id_at_depth_lem_example : ancestor_id_at_depth grown 3 1 ≡ (
    ok_or (HashMap.get 3 grown.blocks) unknown_block >>= λ item.
    if item.depth == 1 then ok item.block.0 else err invalid_ancestor_depth)
ancestor_id_at_depth_lem_example = ancestor_id_at_depth_lem grown 3 1

abbrev pub root_item : MemoryForkTreeItem Block ℕ
root_item = record { block = (0, none); depth = 0; children = 1 ∷ []; ancestors = [] }

abbrev pub child_item : MemoryForkTreeItem Block ℕ
child_item = record { block = (1, some 0); depth = 1; children = []; ancestors = [] }

-- Two blocks, the second with a skip list that names the first.
abbrev skipping_item : MemoryForkTreeItem Block ℕ
skipping_item = record child_item { ancestors = (0, 0) ∷ [] }

abbrev skipping : Tree
skipping = record { blocks = (0, root_item) ∷ (1, skipping_item) ∷ []; depths = [] }

skipping_items :
    (k : ℕ) (item : MemoryForkTreeItem Block ℕ)
    → HashMap.get k skipping.blocks ≡ some item
    → ((k ≡ 0) × (item ≡ root_item)) ⊎ ((k ≡ 1) × (item ≡ skipping_item))
unfolding HashMap.get
skipping_items k item h = ground arith

skipping-IsLinked : IsLinked skipping
unfolding HashMap.get
skipping-IsLinked = record {
  keyed = λ k item h. ground arith;
  root = λ k item h n. ground arith;
  below = λ k p item h n. (root_item, ground arith, ground arith);
}

skipping-HasSkipLists : HasSkipLists skipping
unfolding HashMap.get
skipping-HasSkipLists k item h = elim (skipping_items k item h) [
  | inl (_, e) ↦ rw e tt
  | inr (q, e) ↦
      rw (e, q) ((omega arith, up 0 skipping_item refl refl (here root_item refl refl refl)), tt)
]

ancestor_loop-AncestorAt_example :
    (a : ℕ) × (ancestor_loop 2 skipping skipping_item 0 ≡ ok a)
    × AncestorAt skipping 1 0 a
    × ((c : ℕ) → AncestorAt skipping 1 0 c → c ≡ a)
unfolding HashMap.get
ancestor_loop-AncestorAt_example =
    ancestor_loop-AncestorAt 2 skipping 1 skipping_item 0 skipping-IsLinked skipping-HasSkipLists
      refl (omega arith) (omega arith)

insert_all-new-IsIndexed_example : IsIndexed {B = Block} {I = ℕ} (insert_all no_repetition new five)
unfolding new insert_all insert HashMap.get HashMap.insert HashMap.modify ancestor_id_at_depth
insert_all-new-IsIndexed_example =
    insert_all-new-IsIndexed no_repetition five (refl, (refl, (refl, (refl, (refl, tt)))))

abbrev skips : List (ℕ × ℕ)
skips = (12, 112) ∷ (8, 108) ∷ (0, 100) ∷ []

next_ancestor_id-least_example :
    (All (λ a. a.0 < 5) skips × (next_ancestor_id skips 5 115 ≡ 115))
    ⊎ ((n : ℕ) × (id : ℕ) × Mem (n, id) skips
        × (5 ≤ n)
        × All (λ a. 5 ≤ a.0 → n ≤ a.0) skips
        × (next_ancestor_id skips 5 115 ≡ id))
next_ancestor_id-least_example = next_ancestor_id-least skips 5 115

-- There it goes to the entry at 8.
next_of_skips : next_ancestor_id skips 5 115 ≡ 108
unfolding next_ancestor_id reduce_or reduce_min
next_of_skips = refl
