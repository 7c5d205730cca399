-- ===== src/Net/Handler.antt =====
-- blocknet/src/libp2p/peer_info/handler.rs: the `Handler` of one connection.
pub mod Run
pub mod Poll
pub mod Remote
pub mod Pushes
pub mod Identify
pub mod Provenance
pub mod Honest
pub mod Bounded
pub mod BothEnds
use rust_chain.Prelude.{
  ℕ, Bool, true, false, Option, none, some, List, [], ◌∷◌, ◌⊎◌, inl, inr, ◌&&◌, if◌then◌else◌,
  Result, ok, err, diverged,
}
use rust_chain.Net.Protocol.{Info, StreamUpgradeError, infallible}
use rust_chain.Net.Codec.{Codec}
pub use rust_chain.Net.Exchange.{
  InEvent, HandlerEvent, Success, ToConnection, ConnectionEvent, Exchange, Polled, Future, Told,
  Emitted, addresses_changed, push_info, identified, identification, identification_pushed,
  identification_error, sent_identify, received_identify, sent_identify_push,
  received_identify_push, outbound_request, notify_behaviour, fully_negotiated_inbound,
  fully_negotiated_outbound, dial_upgrade_error, local_protocols_change, other_event, write_out,
  read_push_in, read_in, write_push_out, ready_ok, ready_err, timed_out, pending,
}
use rust_chain.Net.Types.{Types}

-- `STREAM_TIMEOUT`, in seconds, and `MAX_CONCURRENT_STREAMS_PER_CONNECTION`.
abbrev pub stream_timeout : ℕ
stream_timeout = 60

abbrev pub max_concurrent_streams_per_connection : ℕ
max_concurrent_streams_per_connection = 10

-- The libraries that the handler drives, with the answers that they give at the time: the timer
-- `Delay`, the bounded set of futures `futures_bounded::FuturesSet`, and libp2p's `SupportedProtocols`.
-- `try_push` is none at capacity.
pub record Runtime {ℓ} (W : Types {ℓ}) : Type ℓ where
  pub new_delay : ℕ → W.Delay
  pub reset : W.Delay → ℕ → W.Delay
  pub poll_delay : W.Delay → Bool × W.Delay
  pub new_streams : ℕ → ℕ → W.Streams
  pub try_push : W.Streams → Future W → Option W.Streams
  pub poll_streams : W.Streams → Polled (Success W.TInfo W.TPush) W.E × W.Streams
  pub no_protocols : W.Supported
  pub on_protocols_change : W.Supported → W.Change → Bool × W.Supported

-- `Handler`. `events` is a `SmallVec` that is pushed and popped at its end: here the last pushed stands
-- first.
pub record Handler {ℓ} (W : Types {ℓ}) : Type ℓ where
  pub remote_peer_id : W.PeerId
  pub events : List (Emitted W)
  pub active_streams : W.Streams
  pub trigger_next_identify : W.Delay
  pub exchanged_one_periodic_identify : Bool
  pub interval : ℕ
  pub local_info : W.TInfo
  pub remote_info : Option W.TInfo
  pub local_supported_protocols : W.Supported
  pub external_addresses : List W.Address
  pub protocol_name : W.Protocol
  pub push_protocol_name : W.Protocol

module _ {ℓ} {TInfo TPush Stream E : Type ℓ} where
  -- What a future comes to: the codec's result, with `map_ok`.
  unfoldable pub complete :
      Codec TInfo TPush Stream E → Exchange TInfo TPush Stream → Result (Success TInfo TPush) E
  complete codec (write_out stream info) = elim (codec.write_info stream info).0 [
    | ok _ ↦ ok sent_identify
    | err e ↦ err e
    | diverged ↦ diverged
  ]
  complete codec (read_push_in stream) = elim (codec.read_push_info stream) [
    | ok push ↦ ok (received_identify_push push)
    | err e ↦ err e
    | diverged ↦ diverged
  ]
  complete codec (read_in stream) = elim (codec.read_info stream) [
    | ok info ↦ ok (received_identify info)
    | err e ↦ err e
    | diverged ↦ diverged
  ]
  complete codec (write_push_out stream push) = elim (codec.write_push_info stream push).0 [
    | ok _ ↦ ok (sent_identify_push push)
    | err e ↦ err e
    | diverged ↦ diverged
  ]

module _ {ℓ} {W : Types {ℓ}} (lib : Runtime W) where
  -- `Handler::new`.
  unfoldable pub new_handler :
      ℕ → W.PeerId → List W.Address → W.TInfo → (name push_name : W.Protocol) → Handler W
  new_handler interval remote_peer_id external_addresses local_info name push_name = record {
    remote_peer_id = remote_peer_id;
    events = [];
    active_streams = lib.new_streams stream_timeout max_concurrent_streams_per_connection;
    trigger_next_identify = lib.new_delay 0;
    exchanged_one_periodic_identify = false;
    interval = interval;
    local_info = local_info;
    remote_info = none;
    local_supported_protocols = lib.no_protocols;
    external_addresses = external_addresses;
    protocol_name = name;
    push_protocol_name = push_name;
  }

  -- `self.active_streams.try_push(…).is_err()`, turned: whether the future was taken.
  unfoldable pub try_push : Handler W → Future W → Bool × Handler W
  try_push h future = elim (lib.try_push h.active_streams future) [
    | some streams ↦ (true, record h { active_streams = streams })
    | none ↦ (false, h)
  ]

  unfoldable pub on_fully_negotiated_inbound : Handler W → W.Stream ⊎ W.Stream → Handler W
  unfolding try_push
  on_fully_negotiated_inbound h (inl stream) =
      let (taken, h') = try_push h (write_out stream h.local_info) in
      if taken then record h' { exchanged_one_periodic_identify = true } else h'
  on_fully_negotiated_inbound h (inr stream) = (try_push h (read_push_in stream)).1

  unfoldable pub on_fully_negotiated_outbound :
      Info W.TInfo W.TPush → Handler W → W.Stream ⊎ W.Stream → Handler W
  unfolding try_push
  on_fully_negotiated_outbound info h (inl stream) = (try_push h (read_in stream)).1
  on_fully_negotiated_outbound info h (inr stream) =
      (try_push h (write_push_out stream (info.into_push h.local_info))).1

module _ {ℓ} {W : Types {ℓ}} where
  unfoldable pub handle_incoming_info : Handler W → W.TInfo → Handler W
  handle_incoming_info h info = record h { remote_info = some info }

  -- `listen_protocol`: the two upgrades that are selected from.
  unfoldable pub listen_protocol : Handler W → W.Protocol × W.Protocol
  listen_protocol h = (h.protocol_name, h.push_protocol_name)

  -- The request for a stream on the push protocol.
  unfoldable pub push_request : Handler W → Emitted W
  push_request h = outbound_request (inr h.push_protocol_name)

  unfoldable pub on_behaviour_event : Handler W → InEvent W.Address → Handler W
  unfolding push_request
  on_behaviour_event h (addresses_changed addresses) = record h { external_addresses = addresses }
  on_behaviour_event h push_info = record h { events = push_request h ∷ h.events }

  -- The last `match` of `poll`, on what polling the set gave; none is `Poll::Pending`.
  unfoldable pub settle_stream :
      Info W.TInfo W.TPush
      → Handler W
      → Polled (Success W.TInfo W.TPush) W.E
      → Option (Emitted W) × Handler W
  unfolding handle_incoming_info
  settle_stream info h (ready_ok (received_identify remote_info)) =
      (some (notify_behaviour (identified remote_info)), handle_incoming_info h remote_info)
  settle_stream info h (ready_ok (sent_identify_push push)) =
      (some (notify_behaviour (identification_pushed push)), h)
  settle_stream info h (ready_ok sent_identify) = (some (notify_behaviour identification), h)
  settle_stream info h (ready_ok (received_identify_push push)) = elim h.remote_info [
    | some known ↦ (
      some (notify_behaviour (identified (info.merge known push))),
      handle_incoming_info h (info.merge known push),
    )
    | none ↦ (none, h)
  ]
  settle_stream info h (ready_err e) =
      (some (notify_behaviour (identification_error (StreamUpgradeError.apply e))), h)
  settle_stream info h timed_out =
      (some (notify_behaviour (identification_error StreamUpgradeError.timeout)), h)
  settle_stream info h pending = (none, h)

module _ {ℓ} {W : Types {ℓ}} (lib : Runtime W) where
  -- What polling the timer, which is not due, and the set of futures leaves.
  abbrev pub waited : Handler W → Handler W
  waited h = record h {
    trigger_next_identify = (lib.poll_delay h.trigger_next_identify).1;
    active_streams = (lib.poll_streams h.active_streams).1;
  }

module _ {ℓ} {W : Types {ℓ}} (info : Info W.TInfo W.TPush) (lib : Runtime W) where
  -- `poll`, once no event is queued.
  unfoldable pub poll_idle : Handler W → Option (Emitted W) × Handler W
  unfolding settle_stream
  poll_idle h =
      let (due, delay) = lib.poll_delay h.trigger_next_identify in
      if due
      then (
        some (outbound_request (inl h.protocol_name)),
        record h { trigger_next_identify = lib.reset delay h.interval },
      )
      else settle_stream info (waited lib h) (lib.poll_streams h.active_streams).0

  unfoldable pub poll : Handler W → Option (Emitted W) × Handler W
  unfolding poll_idle
  poll h = elim h.events [
    | event ∷ events ↦ (some event, record h { events = events })
    | [] ↦ poll_idle h
  ]

  unfoldable pub on_connection_event :
      Handler W → ConnectionEvent W.Stream W.IoError W.Change → Handler W
  unfolding on_fully_negotiated_inbound on_fully_negotiated_outbound infallible push_request
  on_connection_event h (fully_negotiated_inbound output) = on_fully_negotiated_inbound lib h output
  on_connection_event h (fully_negotiated_outbound output) =
      on_fully_negotiated_outbound lib info h output
  on_connection_event h (dial_upgrade_error error) = record h {
    events = notify_behaviour (identification_error (infallible error)) ∷ h.events;
    trigger_next_identify = lib.reset h.trigger_next_identify h.interval;
  }
  on_connection_event h (local_protocols_change change) =
      let (changed, supported) = lib.on_protocols_change h.local_supported_protocols change in
      let h' = record h { local_supported_protocols = supported } in
      if changed && h.exchanged_one_periodic_identify
      then record h' { events = push_request h' ∷ h'.events }
      else h'
  on_connection_event h other_event = h
