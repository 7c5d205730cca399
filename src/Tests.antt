-- ===== src/Tests.antt =====
-- Concrete trees, states and calls at which the theorems are applied, and runs of the definitions.
pub mod Chain
mod State
mod Transactional
pub mod Codec
pub mod Worker
pub mod Handler
mod Behaviour
mod Client
mod Node
mod Provenance
mod BothEnds
mod Publish
mod Bounded
