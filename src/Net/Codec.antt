-- ===== src/Net/Codec.antt =====
-- blocknet/src/libp2p/peer_info/codec.rs: the trait of codecs.
pub mod Json
use rust_chain.Prelude.{Result}

-- `trait Codec<TInfo>`. A read consumes its stream; a write also returns the stream as it leaves it.
pub record Codec {ℓ} (TInfo TPush Stream E : Type ℓ) : Type ℓ where
  pub read_info : Stream → Result TInfo E
  pub read_push_info : Stream → Result TPush E
  pub write_info : Stream → TInfo → Result (Unit {0}) E × Stream
  pub write_push_info : Stream → TPush → Result (Unit {0}) E × Stream
