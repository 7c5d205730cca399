-- ===== src/Client/Importable.antt =====
-- Which blocks an import (blockchain/tests/simple.rs) takes, and the data after it.
use rust_chain.Prelude.{
  ℕ, ◌+◌, ◌%◌, ◌≡◌, ◌≢◌, false, none, some, [], arith, ok, ◌==◌, ◌∙◌, ap, subst, Option,
  Option-cases, inl, inr,
}
use native.Mathlib.Decide.{ℕ_discrete}
use rust_chain.Prelude.HashMap
use rust_chain.Memory.Chain.{Unique, push_child}
use rust_chain.Memory.Chain.Lookup.{get-store, get-push_child}
use rust_chain.Memory.State.Anywhere.{depth_at}
use rust_chain.Memory.State.Inherit.{IsAt}
use rust_chain.Memory.Transactional.{new}
use rust_chain.Client.{
  block_id_eq, block_identified, BlockId, Block, ChainData, Seal, valid_seal, import,
}
use rust_chain.Client.Import.{extended, import_lem}
use rust_chain.Client.Reads.{IsSound, IsAt-grown, extended-IsSound}

Seal-discrete : Discrete Seal
Seal-discrete = hlevel

abbrev parent_depth : ChainData → Block → Option ℕ
parent_depth d block = elim block.parent_id [
  | some parent_id ↦ depth_at parent_id d.fork_tree
  | none ↦ none
]

-- A block that can be imported: sealed, with a new id, a known parent at the given depth, and a
-- depth of its own that 4 does not divide.
abbrev pub IsImportable : ChainData → ℕ → Block → Type 0
IsImportable d depth block =
    (block.seal ≡ valid_seal)
    × (depth_at block.id d.fork_tree ≡ none)
    × (parent_depth d block ≡ some depth)
    × (((depth + 1) % 4 == 0) ≡ false)

pub IsImportable-prop :
    (d : ChainData) (depth : ℕ) (block : Block) → IsProp (IsImportable d depth block)
IsImportable-prop d depth block = hlevel (Seal-discrete, ℕ_discrete)

-- The same with the parent.
pub record IsPlaced (d : ChainData) (depth : ℕ) (block : Block) : Type 0 where
  pub sealed : block.seal ≡ valid_seal
  pub fresh : HashMap.get block.id d.fork_tree.blocks ≡ none
  pub parent_id : BlockId
  pub named : block.parent_id ≡ some parent_id
  pub known : IsAt d.fork_tree depth parent_id
  pub shallow : ((depth + 1) % 4 == 0) ≡ false

pub find_parent :
    (d : ChainData) (depth : ℕ) (block : Block)
    → IsImportable d depth block
    → IsPlaced d depth block
find_parent d depth block (sealed, fresh, known, shallow) = elim (Option-cases block.parent_id) [
  | inl n ↦ absurd (ground (arith, n, known))
  | inr (parent_id, p) ↦ elim (Option-cases (HashMap.get parent_id d.fork_tree.blocks)) [
    | inl m ↦ absurd (ground (arith, m, p, known))
    | inr (item, g) ↦ record {
      sealed = sealed;
      fresh = ground (arith, fresh);
      parent_id = parent_id;
      named = p;
      known = (item, g, ground (arith, g, p, known));
      shallow = shallow;
    }
  ]
]

module _ (u : Unique) (d : ChainData) (depth : ℕ) (block : Block) (f : IsPlaced d depth block) where
  -- The data after its import.
  abbrev pub after : ChainData
  after = extended d block f.parent_id (depth + 1)

  pub import-after : import u (new d) block ≡ (ok tt, new after)
  import-after =
      let (item, g, e) = f.known in
      import_lem u d block ∙ ground (arith, f.sealed, f.named, g, e, f.shallow)

  pub after-IsSound : IsSound d → IsSound after
  after-IsSound s =
      let (item, g, e) = f.known in
      let z : ((item.depth + 1) % 4 == 0) ≡ false = ap (λ n. (n + 1) % 4 == 0) e ∙ f.shallow in
      subst (λ n. IsSound (extended d block f.parent_id (n + 1))) e
        (extended-IsSound u d block f.parent_id item f.named g f.fresh s z)

  -- A block with another id can be imported if it could be before.
  pub after-IsPlaced :
      (height : ℕ) (other : Block)
      → IsPlaced d height other
      → block.id ≢ other.id
      → IsPlaced after height other
  after-IsPlaced height other g ne = record {
    sealed = g.sealed;
    fresh = ground (
      arith,
      block_id_eq.beq_iff block.id other.id,
      g.fresh,
      get-store (push_child d.fork_tree f.parent_id block.id) block (depth + 1) [] other.id,
      get-push_child d.fork_tree f.parent_id block.id other.id,
    );
    parent_id = g.parent_id;
    named = g.named;
    known = IsAt-grown d.fork_tree f.parent_id block (depth + 1) height g.parent_id f.fresh g.known;
    shallow = g.shallow;
  }
