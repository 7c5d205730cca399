-- ===== src/Block.antt =====
-- blockchain/src/block.rs: what the framework asks of a block or a header.
use rust_chain.Prelude.{Option}

-- `trait Identified`; its bound `Identifier: Eq` is an instance argument of what compares ids.
pub record Identified {ℓ κ} (B : Type ℓ) (I : Type κ) : Type (ℓ ⊔ κ) where
  pub id : B → I
  pub parent_id : B → Option I

-- `trait Keyed<Key>`.
pub record Keyed {ℓ κ} (B : Type ℓ) (Key : Type κ) : Type (ℓ ⊔ κ) where
  pub key : B → Key

-- `trait Headered`.
pub record Headered {ℓ κ} (B : Type ℓ) (Header : Type κ) : Type (ℓ ⊔ κ) where
  pub header : B → Header
