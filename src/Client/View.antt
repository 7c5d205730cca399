-- ===== src/Client/View.antt =====
-- What can be read of a chain of blockchain/tests/simple.rs: an abstract view of it, which forgets
-- in which order its tree and its histories were filled.
use rust_chain.Prelude.{
  ℕ, Bool, ◌||◌, ◌≡◌, ◌≢◌, ◌∙◌, sym, true, false, none, some, Option, List, [], arith, Result,
}
use rust_chain.Prelude.Eq.{nat_eq, ◌=?◌}
use rust_chain.Prelude.BTreeMap.{before, same}
use rust_chain.Memory.Chain.{QueryError, push_child, memory_fork_tree}
use rust_chain.Memory.Chain.Lookup.{get-store, get-push_child}
use rust_chain.Memory.State.{history_of, get}
use rust_chain.Memory.State.Anywhere.{
  depth_at, has_history, reading, get_anywhere, has_history-write_changes,
}
use rust_chain.Memory.State.Changes.{last_change, written-write_changes}
use rust_chain.Memory.State.Inherit.{IsAt, has_shallower}
use rust_chain.Memory.State.Shallower.{has_shallower-write_changes}
use rust_chain.Memory.State.Written.{written_in}
use rust_chain.Client.{block_id_eq, block_identified, BlockId, Block, ChainData}
use rust_chain.Client.Changes.{changes_of}
use rust_chain.Client.Import.{extended}
use rust_chain.Client.Reads.{IsFiled-imp, IsSound}

-- The depth of each block, what was written of a key at a depth by a block, whether anything was
-- written of it above a depth, and whether at all.
pub record View : Type 0 where
  pub depth : BlockId → Option ℕ
  pub written : ℕ → ℕ → BlockId → Option (Option ℕ)
  pub shallower : ℕ → ℕ → Bool
  pub ever : ℕ → Bool

abbrev pub view : ChainData → View
view d = record {
  depth = λ k. depth_at k d.fork_tree;
  written = λ q n k. written_in n k (history_of d.state q);
  shallower = λ q n. has_shallower n (history_of d.state q);
  ever = λ q. has_history q d.state;
}

-- What a key reads at a block.
abbrev pub read : View → ℕ → BlockId → Result (Option ℕ) QueryError
read v q k = reading (v.depth k) (λ n. v.written q n k) (v.shallower q) (v.ever q)

pub get-view :
    (d : ChainData) (q : ℕ) (k : BlockId)
    → IsSound d
    → get memory_fork_tree d.state q k d.fork_tree ≡ read (view d) q k
get-view d q k s = get_anywhere d.fork_tree d.state q k s.0 s.1

-- Two writes at one place, of which one at most stands there.
swap_depth {ℓ} :
    {A : Type ℓ} (ia ib : Bool) (x y z : A)
    → (ia ≡ true → ib ≡ true → ⊥)
    → elim ib [ true ↦ y | false ↦ elim ia [ true ↦ x | false ↦ z ] ]
      ≡ elim ia [ true ↦ x | false ↦ elim ib [ true ↦ y | false ↦ z ] ]
swap_depth ia ib x y z n = ground arith

abbrev write_over {ℓ} : {A : Type ℓ} → Option A → Bool → Bool → Option A → Option A
write_over none here mine old = old
write_over (some v) here mine old = elim here [
  | true ↦ elim mine [ true ↦ some v | false ↦ old ]
  | false ↦ old
]

swap_written {ℓ} :
    {A : Type ℓ} (la lb : Option A) (ha hb ia ib : Bool) (old : Option A)
    → (ia ≡ true → ib ≡ true → ⊥)
    → write_over lb hb ib (write_over la ha ia old) ≡ write_over la ha ia (write_over lb hb ib old)
swap_written la lb ha hb ia ib old n = ground arith

abbrev or_when {ℓ} : {A : Type ℓ} → Option A → Bool → Bool → Bool
or_when none x y = y
or_when (some v) x y = x || y

swap_shallower {ℓ} :
    {A : Type ℓ} (la lb : Option A) (xa xb old : Bool)
    → or_when lb xb (or_when la xa old) ≡ or_when la xa (or_when lb xb old)
swap_shallower la lb xa xb old = ground arith

-- The view with a block added that changes the state at a depth.
abbrev pub add_changes : BlockId → List (ℕ × Option ℕ) → ℕ → View → View
add_changes id changes n v = record {
  depth = λ k. elim (id =? k) [ true ↦ some n | false ↦ v.depth k ];
  written = λ q m k. write_over (last_change q changes) (same n m) (id =? k) (v.written q m k);
  shallower = λ q m. or_when (last_change q changes) (before n m) (v.shallower q m);
  ever = λ q. or_when (last_change q changes) true (v.ever q);
}

abbrev pub add : Block → ℕ → View → View
add block = add_changes block.id (changes_of block.extrinsics)

pub view_eq :
    (v w : View)
    → ((k : BlockId) → v.depth k ≡ w.depth k)
    → ((q n : ℕ) (k : BlockId) → v.written q n k ≡ w.written q n k)
    → ((q n : ℕ) → v.shallower q n ≡ w.shallower q n)
    → ((q : ℕ) → v.ever q ≡ w.ever q)
    → v ≡ w
view_eq v w hd hw hs he = λ i. record {
  depth = λ k. hd k i;
  written = λ q n k. hw q n k i;
  shallower = λ q n. hs q n i;
  ever = λ q. he q i;
}

abbrev pub IsApart : Block → Block → Type 0
IsApart a b = a.id ≢ b.id

apart : (a b : Block) → a.id ≢ b.id → (k : BlockId) → (a.id =? k) ≡ true → (b.id =? k) ≡ true → ⊥
apart a b ne k p q = ne ((block_id_eq.beq_iff a.id k).0 p ∙ sym ((block_id_eq.beq_iff b.id k).0 q))

pub add_comm :
    (a b : Block) (n m : ℕ) (v : View) → a.id ≢ b.id → add b m (add a n v) ≡ add a n (add b m v)
add_comm a b n m v ne =
    view_eq (add b m (add a n v)) (add a n (add b m v))
      (λ k. swap_depth (a.id =? k) (b.id =? k) (some n) (some m) (v.depth k) (apart a b ne k))
      (λ q l k.
        swap_written (last_change q (changes_of a.extrinsics))
          (last_change q (changes_of b.extrinsics)) (same n l) (same m l) (a.id =? k) (b.id =? k)
          (v.written q l k) (apart a b ne k))
      (λ q l.
        swap_shallower (last_change q (changes_of a.extrinsics))
          (last_change q (changes_of b.extrinsics)) (before n l) (before m l) (v.shallower q l))
      (λ q.
        swap_shallower (last_change q (changes_of a.extrinsics))
          (last_change q (changes_of b.extrinsics)) true true (v.ever q))

module _ (d : ChainData) (block : Block) (parent_id : BlockId) (n : ℕ) where
  depth_at-extended :
      (k : BlockId)
      → depth_at k (extended d block parent_id n).fork_tree
        ≡ elim (block.id =? k) [ true ↦ some n | false ↦ depth_at k d.fork_tree ]
  depth_at-extended k = ground (
    arith,
    get-store (push_child d.fork_tree parent_id block.id) block n [] k,
    get-push_child d.fork_tree parent_id block.id k,
  )

  written_in-extended :
      (m q : ℕ) (k : BlockId)
      → IsSound d
      → written_in m k (history_of (extended d block parent_id n).state q)
        ≡ write_over
            (last_change q (changes_of block.extrinsics))
            (same n m)
            (block.id =? k)
            (written_in m k (history_of d.state q))
  written_in-extended m q k s =
      written-write_changes (λ i a. Unit {0}) n block.id d.state (changes_of block.extrinsics) q m k
        tt
        (λ j.
          IsFiled-imp (IsAt d.fork_tree) (λ i a. Unit {0}) (λ i a h. tt) (history_of d.state j)
            (s.1 j))
      ∙ ground arith

  has_shallower-extended :
      (m q : ℕ)
      → has_shallower m (history_of (extended d block parent_id n).state q)
        ≡ or_when
            (last_change q (changes_of block.extrinsics))
            (before n m)
            (has_shallower m (history_of d.state q))
  has_shallower-extended m q =
      has_shallower-write_changes m n block.id d.state (changes_of block.extrinsics) q
      ∙ ground arith

  has_history-extended :
      (q : ℕ)
      → has_history q (extended d block parent_id n).state
        ≡ or_when (last_change q (changes_of block.extrinsics)) true (has_history q d.state)
  has_history-extended q =
      has_history-write_changes n block.id d.state (changes_of block.extrinsics) q ∙ ground arith

  -- An import of the block adds it to the view.
  pub view-extended : IsSound d → view (extended d block parent_id n) ≡ add block n (view d)
  view-extended s =
      view_eq (view (extended d block parent_id n)) (add block n (view d)) depth_at-extended
        (λ q m k. written_in-extended m q k s) (λ q m. has_shallower-extended m q)
        has_history-extended
