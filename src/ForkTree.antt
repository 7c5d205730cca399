-- ===== src/ForkTree.antt =====
-- blockchain/src/chain.rs: the traits of fork trees. A trait is a record of its methods, over the
-- type `T` that implements it.
use rust_chain.Prelude.{ℕ, Bool, Result, ok, ◌>>=◌}
use rust_chain.Prelude.Eq.{Eq, ◌=?◌}

-- `trait ForkTree`, less `is_ancestor`, which it defines itself.
pub record ForkTree {ℓ κ} (T B I : Type ℓ) (E : Type κ) : Type (ℓ ⊔ κ) where
  pub block : T → I → Result B E
  pub block_depth : T → I → Result ℕ E
  pub ancestor_id_at_depth : T → I → ℕ → Result I E

-- `ForkTree::is_ancestor`, the provided method.
unfoldable pub is_ancestor {ℓ κ} :
    {T B I : Type ℓ} {E : Type κ} ⦃e : Eq I⦄ → ForkTree T B I E → T → I → I → Result Bool E
is_ancestor ft t id ancestor_id = do
  ancestor_depth ← ft.block_depth t ancestor_id
  found ← ft.ancestor_id_at_depth t id ancestor_depth
  ok (found =? ancestor_id)

-- `trait ForkTreeMut`. A method on `&mut self` returns the tree as it leaves it, also with an error.
pub record ForkTreeMut {ℓ κ} (T B : Type ℓ) (E : Type κ) : Type (ℓ ⊔ κ) where
  pub insert : T → B → Result (Unit {0}) E × T

-- `trait ForkTreeTransactional`, whose methods write to a transaction.
pub record ForkTreeTransactional {ℓ κ} (T B Transaction : Type ℓ) (E : Type κ) : Type (ℓ ⊔ κ) where
  pub insert : T → Transaction → B → Result (Unit {0}) E × Transaction

-- `trait ImportBlock`, of a chain `C`.
pub record ImportBlock {ℓ κ} (C B : Type ℓ) (E : Type κ) : Type (ℓ ⊔ κ) where
  pub import : C → B → Result (Unit {0}) E × C

-- `trait BlockBuilder`, which `W` implements, with `Block::Identifier` as `I`.
pub record BlockBuilder {ℓ κ} (W C B I Extrinsic PreLog PostLog : Type ℓ) (E : Type κ)
    : Type (ℓ ⊔ κ) where
  pub initialize : C → I → PreLog → Result W E
  pub apply_extrinsic : W → Extrinsic → Result (Unit {0}) E × W
  pub finalize : W → PostLog → Result B E
