-- ===== src/Memory/State/Anywhere.antt =====
-- What `MemoryFlatState::get` (blockchain/src/memory/state.rs) reads on a `MemoryForkTree`, at a block
-- that the tree has or not.
use rust_chain.Prelude.{
  ℕ, Bool, true, false, none, some, Option, List, [], ◌∷◌, ◌≡◌, refl, Result, ok, err, arith, ◌∙◌,
  inl, inr, Option-cases,
}
use rust_chain.Prelude.Eq.{Eq}
use rust_chain.Prelude.HashMap
use rust_chain.Block.{Identified}
use rust_chain.Memory.Chain.{
  MemoryForkTree, QueryError, invalid_ancestor_depth, unknown_block, memory_fork_tree, block_depth,
}
use rust_chain.Memory.Chain.Links.{IsLinked}
use rust_chain.Memory.State.{
  MemoryFlatState, record_value, history_of, get, get_history, write_change, write_changes,
}
use rust_chain.Memory.State.Changes.{last_change}
use rust_chain.Memory.State.Inherit.{IsFiledBy, has_shallower, get-memory}
use rust_chain.Memory.State.Written.{written_in}

module _ {ℓ} {B I : Type ℓ} ⦃e : Eq I⦄ where
  -- The depth of a block, if the tree has it.
  abbrev pub depth_at : I → MemoryForkTree B I → Option ℕ
  depth_at k t = elim (HashMap.get k t.blocks) [ some item ↦ some item.depth | none ↦ none ]

module _ {ℓ} {I K V : Type ℓ} ⦃eK : Eq K⦄ where
  -- Whether a key was ever written.
  abbrev pub has_history : K → MemoryFlatState K V I → Bool
  has_history q s = elim (HashMap.get q s.state) [ some history ↦ true | none ↦ false ]

-- What is read, given the depth of the block, what was written there, whether anything was written
-- above it, and whether anything was written at all.
abbrev pub reading {ℓ} :
    {V : Type ℓ}
    → Option ℕ
    → (ℕ → Option (Option V))
    → (ℕ → Bool)
    → Bool
    → Result (Option V) QueryError
reading (some n) written shallower ever = elim (written n) [
  | some v ↦ ok v
  | none ↦ elim (shallower n) [ true ↦ err invalid_ancestor_depth | false ↦ ok none ]
]
reading none written shallower ever = elim ever [ true ↦ err unknown_block | false ↦ ok none ]

module _ {ℓ} {B I K V : Type ℓ} ⦃eI : Eq I⦄ ⦃eK : Eq K⦄ ⦃b : Identified B I⦄ where
  pub get_anywhere :
      (t : MemoryForkTree B I) (s : MemoryFlatState K V I) (q : K) (k : I)
      → IsLinked t
      → IsFiledBy t s
      → get memory_fork_tree s q k t
        ≡ reading
            (depth_at k t)
            (λ n. written_in n k (history_of s q))
            (λ n. has_shallower n (history_of s q))
            (has_history q s)
  unfolding get get_history block_depth
  get_anywhere t s q k l f = elim (Option-cases (HashMap.get k t.blocks)) [
    | inr (item, g) ↦ get-memory t s q k item l f g ∙ ground (arith, g)
    | inl n ↦ ground (arith, n)
  ]

module _ {ℓ} {I K V : Type ℓ} ⦃eI : Eq I⦄ ⦃eK : Eq K⦄ where
  pub has_history-write_changes :
      (depth : ℕ) (id : I) (s : MemoryFlatState K V I) (changes : List (K × Option V)) (q : K)
      → has_history q (write_changes depth id s changes)
        ≡ elim (last_change q changes) [ some v ↦ true | none ↦ has_history q s ]
  unfolding write_changes write_change last_change
  has_history-write_changes depth id s [] q = refl
  has_history-write_changes depth id s ((k, v) ∷ changes) q =
      has_history-write_changes depth id (write_change depth id s (k, v)) changes q
      ∙ ground (
        arith,
        eK.beq_iff k q,
        HashMap.get-insert k q (record_value depth id v (history_of s k)) s.state,
      )
