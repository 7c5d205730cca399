-- ===== src/Memory/Chain/Reads.antt =====
-- What the queries of blockchain/src/memory/chain.rs read after `insert`.
use rust_chain.Prelude.{ℕ, ◌+◌, ◌≡◌, refl, [], true, false, arith, ok, err, diverged}
use rust_chain.Prelude.Eq.{Eq, ◌=?◌}
use rust_chain.Block.{Identified}
use rust_chain.Memory.Chain.Insert.{insert_cases}
use rust_chain.Memory.Chain.Lookup.{get-push_child, get-store}
use rust_chain.Memory.Chain.{MemoryForkTree, Unique, push_child, store, insert, block}

module _ {ℓ} {B I : Type ℓ} ⦃e : Eq I⦄ ⦃b : Identified B I⦄ where
  block-push_child : (t : MemoryForkTree B I) (p id q : I) → block (push_child t p id) q ≡ block t q
  unfolding block
  block-push_child t p id q = ground (arith, get-push_child t p id q)

  block-store :
      (t : MemoryForkTree B I) (new : B) (depth : ℕ) (q : I)
      → block (store t new depth []) q ≡ elim (b.id new =? q) [ true ↦ ok new | false ↦ block t q ]
  unfolding block
  block-store t new depth q = ground (arith, get-store t new depth [] q)

  -- After `insert`, a block that was taken reads back under its id, and every other id reads as
  -- before; after an error every id does.
  pub block-insert :
      (u : Unique) (t : MemoryForkTree B I) (new : B) (q : I)
      → block (insert u t new).1 q ≡ elim (insert u t new).0 [
        | ok _ ↦ elim (b.id new =? q) [ true ↦ ok new | false ↦ block t q ]
        | err _ ↦ block t q
        | diverged ↦ block t q
      ]
  block-insert u t new q =
      insert_cases
        (λ r. block r.1 q ≡ elim r.0 [
          | ok _ ↦ elim (b.id new =? q) [ true ↦ ok new | false ↦ block t q ]
          | err _ ↦ block t q
          | diverged ↦ block t q
        ])
        u t new (λ root. block-store t new 0 q) (λ p e₁ e₂. refl)
        (λ p parent e₁ e₂ z. block-push_child t p (b.id new) q)
        (λ p parent e₁ e₂ n. ground (
          arith,
          block-store (push_child t p (b.id new)) new (parent.depth + 1) q,
          block-push_child t p (b.id new) q,
        ))
