-- ===== src/Memory.antt =====
-- blockchain/src/memory: the implementations that reside in memory.
pub mod Chain
pub mod Transactional
pub mod State
