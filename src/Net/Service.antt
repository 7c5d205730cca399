-- ===== src/Net/Service.antt =====
-- blocknet/src/service.rs: the traits of services and of what they carry.
use rust_chain.Prelude.{List, Result}
use rust_chain.Prelude.{Outcome}

-- `trait Service`, with its associated types for parameters. A method may panic.
pub record Service {ℓ} (S PeerId PeerInfo : Type ℓ) : Type ℓ where
  pub local_info : S → Outcome PeerInfo
  pub set_local_info : S → PeerInfo → Outcome (Unit {0}) × S
  pub peers : S → Outcome (List (PeerId × PeerInfo))

-- `trait Event`.
pub record Event {ℓ} (V Origin Value : Type ℓ) : Type ℓ where
  pub origin : V → Origin
  pub value : V → Value
  pub into_value : V → Value

-- `trait Message`.
pub record Message {ℓ} (Msg Topic : Type ℓ) : Type ℓ where
  pub topic : Msg → Topic

-- `trait BroadcastService`. A stream is what it makes of the items of the channel behind it.
pub record BroadcastService {ℓ} (S Msg Topic Item V E : Type ℓ) : Type ℓ where
  pub listen : S → Topic → (List Item → List (Result V E)) × S
  pub broadcast : S → Msg → Result (Unit {0}) E × S

-- `trait NotifyService`.
pub record NotifyService {ℓ} (S PeerId Not Item V E : Type ℓ) : Type ℓ where
  pub listen : S → (List Item → List (Result V E)) × S
  pub notify : S → PeerId → Not → Result (Unit {0}) E × S

-- `trait Request`.
pub record Request {ℓ} (Req : Type ℓ) : Type (ℓ + 1) where
  pub Response : Type ℓ

-- `trait RequestService`.
pub record RequestService {ℓ} (S PeerId Req Channel V E : Type ℓ) (r : Request Req) : Type ℓ where
  pub listen : S → Result (Channel × V) E × S
  pub request : S → PeerId → Req → Result r.Response E × S
  pub respond : S → Channel → r.Response → Result (Unit {0}) E × S
