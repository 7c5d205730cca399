-- ===== src/Net/Types.antt =====
-- The types that blocknet/src/libp2p/peer_info is over.

-- The program's parameters (`TInfo`, its `Push`, the error `E` of its codec) and the libraries' types.
-- `SwarmChange` is what an event of the swarm tells beside connections, `Listen` and `External` are
-- `ListenAddresses` and `ExternalAddresses`.
pub record Types {ℓ} : Type (ℓ + 1) where
  pub PeerId : Type ℓ
  pub Address : Type ℓ
  pub Protocol : Type ℓ
  pub TInfo : Type ℓ
  pub TPush : Type ℓ
  pub E : Type ℓ
  pub IoError : Type ℓ
  pub Stream : Type ℓ
  pub Delay : Type ℓ
  pub Streams : Type ℓ
  pub Supported : Type ℓ
  pub Change : Type ℓ
  pub Text : Type ℓ
  pub Key : Type ℓ
  pub ConnectionId : Type ℓ
  pub SwarmChange : Type ℓ
  pub Listen : Type ℓ
  pub External : Type ℓ
