-- ===== src/Net/Protocol.antt =====
-- blocknet/src/libp2p/peer_info/protocol.rs: what is exchanged, and how that fails.

-- `trait Info`, with `Push: From<Self>`: `TPush` is what a peer pushes when its info changes.
pub record Info {ℓ} (TInfo TPush : Type ℓ) : Type ℓ where
  pub into_push : TInfo → TPush
  pub merge : TInfo → TPush → TInfo

-- `UpgradeError`; the errors that it wraps are the libraries'.
pub data UpgradeError {ℓ} (Text IoError AddressError KeyError : Type ℓ) : Type ℓ where
  codec : Text → UpgradeError Text IoError AddressError KeyError
  io : IoError → UpgradeError Text IoError AddressError KeyError
  stream_closed : UpgradeError Text IoError AddressError KeyError
  multiaddr : AddressError → UpgradeError Text IoError AddressError KeyError
  public_key : KeyError → UpgradeError Text IoError AddressError KeyError

-- `libp2p::swarm::StreamUpgradeError`, over the errors of the upgrade and of the transport.
pub data StreamUpgradeError {ℓ κ} (E : Type κ) (IoError : Type ℓ) : Type (ℓ ⊔ κ) where
  timeout : StreamUpgradeError E IoError
  apply : E → StreamUpgradeError E IoError
  negotiation_failed : StreamUpgradeError E IoError
  transport : IoError → StreamUpgradeError E IoError

-- `map_upgrade_err` at an upgrade that cannot fail, as in `|e| void::unreachable(…)`.
unfoldable pub infallible {ℓ κ} :
    {IoError : Type ℓ} {E : Type κ} → StreamUpgradeError ⊥ IoError → StreamUpgradeError E IoError
infallible timeout = timeout
infallible (apply e) = absurd e
infallible negotiation_failed = negotiation_failed
infallible (transport e) = transport e
