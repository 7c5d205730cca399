-- ===== src/Tinyjam.antt =====
-- tinyjam/src/lib.rs.

pub record State {ℓ} (Consensus : Type ℓ) : Type ℓ where
  pub consensus : Consensus
