-- ===== src/Net/Handler/Bounded.antt =====
-- How many streams a `Handler` (blocknet/src/libp2p/peer_info/handler.rs) works on at a time.
use rust_chain.Prelude.{
  ℕ, ◌+◌, ◌≤◌, ◌<◌, Bool, true, false, some, List, [], ◌∷◌, ◌≡◌, length, All, arith, inl, inr,
  Option-cases, Bool-cases, List-cases, ◌&&◌, if◌then◌else◌,
}
use rust_chain.Net.Protocol.{Info}
use rust_chain.Net.Types.{Types}
use rust_chain.Net.Handler.{
  Future, Runtime, Handler, Success, Polled, ConnectionEvent, fully_negotiated_inbound,
  fully_negotiated_outbound, dial_upgrade_error, local_protocols_change, other_event,
  on_connection_event, on_fully_negotiated_inbound, on_fully_negotiated_outbound, write_out,
  read_in, read_push_in, write_push_out, try_push, settle_stream, poll_idle, poll, waited,
  new_handler, on_behaviour_event, addresses_changed, push_info, stream_timeout,
  max_concurrent_streams_per_connection,
}
use rust_chain.Net.Handler.Poll.{poll_queued, poll_empty}
use rust_chain.Net.Handler.Run.{Input, from_behaviour, from_connection, polled, handle, run}

-- What `futures_bounded::FuturesSet` documents of its capacity: a new set has the given one and holds
-- nothing, a push is taken when there is room for it, and a poll adds nothing.
pub record BoundedSet {ℓ} {W : Types {ℓ}} (held : W.Streams → List (Future W))
    (capacity : W.Streams → ℕ) (lib : Runtime W) : Type ℓ where
  pub new_lem :
      (timeout n : ℕ)
      → (held (lib.new_streams timeout n) ≡ []) × (capacity (lib.new_streams timeout n) ≡ n)
  pub try_push_lem :
      (set set' : W.Streams) (future : Future W)
      → lib.try_push set future ≡ some set'
      → (length (held set) < capacity set)
        × (length (held set') ≡ length (held set) + 1)
        × (capacity set' ≡ capacity set)
  pub poll_lem :
      (set : W.Streams)
      → (length (held (lib.poll_streams set).1) ≤ length (held set))
        × (capacity (lib.poll_streams set).1 ≡ capacity set)

module _ {ℓ} {W : Types {ℓ}} (info : Info W.TInfo W.TPush) where
  settle_stream_active :
      (h : Handler W) (found : Polled (Success W.TInfo W.TPush) W.E)
      → (settle_stream info h found).1.active_streams ≡ h.active_streams
  unfolding settle_stream
  settle_stream_active h found = ground arith

module _ {ℓ κ} {W : Types {ℓ}} (info : Info W.TInfo W.TPush) (P : W.Streams → Type κ)
    (lib : Runtime W)
    (pushes : (set set' : W.Streams) (future : Future W)
      → lib.try_push set future ≡ some set'
      → P set
      → P set')
    (polls : (set : W.Streams) → P set → P (lib.poll_streams set).1) where
  try_push_keeps :
      (h : Handler W) (future : Future W)
      → P h.active_streams
      → P (try_push lib h future).1.active_streams
  unfolding try_push
  try_push_keeps h future p = elim (Option-cases (lib.try_push h.active_streams future)) [
    | inl n ↦ rw (n, try_push) p
    | inr (set, e) ↦ rw (e, try_push) (pushes h.active_streams set future e p)
  ]

  poll_keeps : (h : Handler W) → P h.active_streams → P (poll info lib h).1.active_streams
  unfolding poll_idle
  poll_keeps h p = elim (List-cases h.events) [
    | inr (event, events, e) ↦ rw (poll_queued info lib h event events e) p
    | inl n ↦
        rw (poll_empty info lib h n) (elim (Bool-cases (lib.poll_delay h.trigger_next_identify).0) [
          | inl due ↦ rw due p
          | inr early ↦ rw early (
              rw (settle_stream_active info (waited lib h) (lib.poll_streams h.active_streams).0)
                (polls h.active_streams p))
        ])
  ]

  marked_keeps :
      (taken : Bool) (h : Handler W)
      → P h.active_streams
      → P (if taken then record h { exchanged_one_periodic_identify = true } else h).active_streams
  marked_keeps true h p = p
  marked_keeps false h p = p

  on_connection_event_keeps :
      (h : Handler W) (event : ConnectionEvent W.Stream W.IoError W.Change)
      → P h.active_streams
      → P (on_connection_event info lib h event).active_streams
  unfolding on_connection_event on_fully_negotiated_inbound on_fully_negotiated_outbound
  on_connection_event_keeps h (fully_negotiated_inbound (inl stream)) p =
      marked_keeps _ _ (try_push_keeps h (write_out stream h.local_info) p)
  on_connection_event_keeps h (fully_negotiated_inbound (inr stream)) p =
      try_push_keeps h (read_push_in stream) p
  on_connection_event_keeps h (fully_negotiated_outbound (inl stream)) p =
      try_push_keeps h (read_in stream) p
  on_connection_event_keeps h (fully_negotiated_outbound (inr stream)) p =
      try_push_keeps h (write_push_out stream (info.into_push h.local_info)) p
  on_connection_event_keeps h (dial_upgrade_error error) p = p
  on_connection_event_keeps h (local_protocols_change change) p =
      elim (Bool-cases (
        (lib.on_protocols_change h.local_supported_protocols change).0
        && h.exchanged_one_periodic_identify)) [ inl pushed ↦ rw pushed p | inr quiet ↦ rw quiet p ]
  on_connection_event_keeps h other_event p = p

  -- What pushes and polls keep of the set of futures, every call keeps.
  handle_keeps :
      (h : Handler W) (input : Input W)
      → P h.active_streams
      → P (handle info h (lib, input)).1.active_streams
  unfolding handle on_behaviour_event
  handle_keeps h (from_behaviour (addresses_changed addresses)) p = p
  handle_keeps h (from_behaviour push_info) p = p
  handle_keeps h (from_connection event) p = on_connection_event_keeps h event p
  handle_keeps h polled p = poll_keeps h p

abbrev IsBounded {ℓ} : {S F : Type ℓ} → (S → List F) → (S → ℕ) → S → Type 0
IsBounded held capacity set =
    (length (held set) ≤ max_concurrent_streams_per_connection)
    × (capacity set ≡ max_concurrent_streams_per_connection)

module _ {ℓ} {W : Types {ℓ}} (info : Info W.TInfo W.TPush) (held : W.Streams → List (Future W))
    (capacity : W.Streams → ℕ) where
  run-IsBounded :
      (h : Handler W) (inputs : List (Runtime W × Input W))
      → All (λ input. BoundedSet held capacity input.0) inputs
      → IsBounded held capacity h.active_streams
      → IsBounded held capacity (run info h inputs).1.active_streams
  unfolding run
  run-IsBounded h [] laws p = p
  run-IsBounded h ((lib, input) ∷ inputs) laws p =
      run-IsBounded (handle info h (lib, input)).1 inputs laws.1 (
        handle_keeps info (IsBounded held capacity) lib
          (λ set set' future e q.
            let l = laws.0.try_push_lem set set' future e in
            (omega (arith, l, q), omega (arith, l, q)))
          (λ set q. let l = laws.0.poll_lem set in (omega (arith, l, q), omega (arith, l, q))) h
          input p)

  -- Over sets of futures that keep to their capacity, a new handler never works on more than ten
  -- streams at a time, however many are negotiated.
  pub run-new_bounded :
      (lib : Runtime W) (interval : ℕ) (peer : W.PeerId) (addresses : List W.Address)
      (local : W.TInfo) (name push_name : W.Protocol) (inputs : List (Runtime W × Input W))
      → BoundedSet held capacity lib
      → All (λ input. BoundedSet held capacity input.0) inputs
      → length (
          held
            (run info
              (new_handler lib interval peer addresses local name push_name)
              inputs).1.active_streams)
        ≤ 10
  unfolding new_handler
  run-new_bounded lib interval peer addresses local name push_name inputs law laws =
      let new = law.new_lem stream_timeout max_concurrent_streams_per_connection in
      (run-IsBounded (new_handler lib interval peer addresses local name push_name) inputs laws
        (rw new.0 (omega arith), new.1)).0
