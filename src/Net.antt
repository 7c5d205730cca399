-- ===== src/Net.antt =====
-- blocknet/src: the network crate.
pub mod Service
pub mod Worker
pub mod Types
pub mod Protocol
pub mod Codec
pub mod Exchange
pub mod Handler
pub mod Behaviour
pub mod Node
