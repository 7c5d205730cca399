-- ===== src/Net/Exchange.antt =====
-- blocknet/src/libp2p/peer_info/handler.rs: what a `Handler` exchanges with its behaviour, its connection
-- and its futures.
use rust_chain.Prelude.{List, ◌⊎◌}
use rust_chain.Net.Protocol.{StreamUpgradeError}
use rust_chain.Net.Types.{Types}

-- `InEvent`, what a behaviour tells its handlers.
pub data InEvent {ℓ} (Address : Type ℓ) : Type ℓ where
  addresses_changed : List Address → InEvent Address
  push_info : InEvent Address

-- `Event`, what a handler tells its behaviour.
pub data HandlerEvent {ℓ} (TInfo TPush E : Type ℓ) : Type ℓ where
  identified : TInfo → HandlerEvent TInfo TPush E
  identification : HandlerEvent TInfo TPush E
  identification_pushed : TPush → HandlerEvent TInfo TPush E
  identification_error : E → HandlerEvent TInfo TPush E

-- `Success`.
pub data Success {ℓ} (TInfo TPush : Type ℓ) : Type ℓ where
  sent_identify : Success TInfo TPush
  received_identify : TInfo → Success TInfo TPush
  sent_identify_push : TPush → Success TInfo TPush
  received_identify_push : TPush → Success TInfo TPush

-- `ConnectionHandlerEvent`, as far as the handler makes it. An upgrade is `Either::Left` of the name
-- of the protocol or `Either::Right` of that of the push protocol.
pub data ToConnection {ℓ} (Protocol TInfo TPush E : Type ℓ) : Type ℓ where
  outbound_request : Protocol ⊎ Protocol → ToConnection Protocol TInfo TPush E
  notify_behaviour : HandlerEvent TInfo TPush E → ToConnection Protocol TInfo TPush E

-- `ConnectionEvent`. A negotiated stream is `Either::Left` on the protocol and `Either::Right` on the
-- push protocol.
pub data ConnectionEvent {ℓ} (Stream IoError Change : Type ℓ) : Type ℓ where
  fully_negotiated_inbound : Stream ⊎ Stream → ConnectionEvent Stream IoError Change
  fully_negotiated_outbound : Stream ⊎ Stream → ConnectionEvent Stream IoError Change
  dial_upgrade_error : StreamUpgradeError ⊥ IoError → ConnectionEvent Stream IoError Change
  local_protocols_change : Change → ConnectionEvent Stream IoError Change
  other_event : ConnectionEvent Stream IoError Change

-- The future that the handler makes of a stream: what it is to do with it.
pub data Exchange {ℓ} (TInfo TPush Stream : Type ℓ) : Type ℓ where
  write_out : Stream → TInfo → Exchange TInfo TPush Stream
  read_push_in : Stream → Exchange TInfo TPush Stream
  read_in : Stream → Exchange TInfo TPush Stream
  write_push_out : Stream → TPush → Exchange TInfo TPush Stream

-- What polling the set of futures gives: the output of one, that one timed out, or nothing yet.
pub data Polled {ℓ} (Output E : Type ℓ) : Type ℓ where
  ready_ok : Output → Polled Output E
  ready_err : E → Polled Output E
  timed_out : Polled Output E
  pending : Polled Output E

-- The futures of a handler, what it tells its behaviour, and what it gives when it is polled.
abbrev pub Future {ℓ} : Types {ℓ} → Type ℓ
Future W = Exchange W.TInfo W.TPush W.Stream

abbrev pub Told {ℓ} : Types {ℓ} → Type ℓ
Told W = HandlerEvent W.TInfo W.TPush (StreamUpgradeError W.E W.IoError)

abbrev pub Emitted {ℓ} : Types {ℓ} → Type ℓ
Emitted W = ToConnection W.Protocol W.TInfo W.TPush (StreamUpgradeError W.E W.IoError)
