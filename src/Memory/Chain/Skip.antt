-- ===== src/Memory/Chain/Skip.antt =====
-- The depths that `insert` of blockchain/src/memory/chain.rs asks ancestors for.
use rust_chain.Prelude.{
  ℕ, ◌+◌, ◌-◌, ◌%◌, ◌≤◌, ◌≡◌, ◌≢◌, refl, ◌&&◌, List, [], ◌∷◌, map, filter, leb, ◌==◌, Mem, All,
  arith, sym, ap, ◌∙◌, tail,
}
use mathlib.Core.List.{mem-cons_self}
use native.Mathlib.Nat.{mod-mod_of_dvd, dvd_of_mod-eq-zero}
use rust_chain.Memory.Chain.{skip_depths, skip_targets}

targets : ℕ → List ℕ → List ℕ
targets depth skips =
    map (λ skip_depth. depth - skip_depth)
      (filter (λ skip_depth. leb skip_depth depth && (depth % skip_depth == 0)) skips)

targets-le :
    (depth : ℕ) (skips : List ℕ)
    → All (λ s. 4 ≤ s) skips
    → All (λ a. a + 4 ≤ depth) (targets depth skips)
unfolding targets
targets-le depth [] h = tt
targets-le depth (s ∷ skips) h = ground (arith, targets-le depth skips)

-- Every target lies four levels above the block, or more.
pub skip_targets-le : (depth : ℕ) → All (λ a. a + 4 ≤ depth) (skip_targets depth)
unfolding skip_targets targets
skip_targets-le depth = targets-le depth skip_depths (omega arith)

mod_of_divisor : (depth s : ℕ) → s % 4 ≡ 0 → depth % s ≡ 0 → depth % 4 ≡ 0
mod_of_divisor depth s h d =
    sym (mod-mod_of_dvd 4 depth (dvd_of_mod-eq-zero 4 h)) ∙ ap (λ (x : ℕ). x % 4) d

targets-eq-nil :
    (depth : ℕ) (skips : List ℕ)
    → All (λ s. s % 4 ≡ 0) skips
    → depth % 4 ≢ 0
    → targets depth skips ≡ []
unfolding targets
targets-eq-nil depth [] h n = refl
targets-eq-nil depth (s ∷ skips) h n =
    ground (arith, mod_of_divisor depth s, targets-eq-nil depth skips)

-- A depth that 4 does not divide has no target.
pub skip_targets-eq-nil : (depth : ℕ) → depth % 4 ≢ 0 → skip_targets depth ≡ []
unfolding skip_targets targets
skip_targets-eq-nil depth n = targets-eq-nil depth skip_depths (omega arith) n

pub skip_targets-zero : skip_targets 0 ≡ []
unfolding skip_targets
skip_targets-zero = refl

targets-mem :
    (depth : ℕ) (skips : List ℕ)
    → depth % 4 ≡ 0
    → 4 ≤ depth
    → Mem (depth - 4) (targets depth (4 ∷ skips))
unfolding targets
targets-mem depth skips h l = rw (filter_head) mem-cons_self
  where
    filter_head :
        filter (λ skip_depth. leb skip_depth depth && (depth % skip_depth == 0)) (4 ∷ skips)
        ≡ 4 ∷ filter (λ skip_depth. leb skip_depth depth && (depth % skip_depth == 0)) skips
    filter_head = ground arith

-- Any other positive depth asks for the block four levels up.
pub skip_targets-mem :
    (depth : ℕ) → depth % 4 ≡ 0 → 4 ≤ depth → Mem (depth - 4) (skip_targets depth)
unfolding skip_targets targets
skip_targets-mem depth h l = targets-mem depth (tail skip_depths) h l
