-- ===== src/Net/Handler/Remote.antt =====
-- What a `Handler` (blocknet/src/libp2p/peer_info/handler.rs) knows of its remote peer.
use rust_chain.Prelude.{
  ℕ, Option, none, some, List, [], ◌∷◌, ◌≡◌, refl, All, arith, inl, inr, List-cases, subst, sym,
  ◌∙◌,
}
use rust_chain.Net.Protocol.{Info}
use rust_chain.Net.Types.{Types}
use rust_chain.Net.Handler.{
  Emitted, Runtime, Handler, Success, Polled, ToConnection, addresses_changed, push_info,
  ConnectionEvent, fully_negotiated_inbound, fully_negotiated_outbound, dial_upgrade_error,
  local_protocols_change, other_event, on_connection_event, new_handler, outbound_request,
  notify_behaviour, identified, identification, identification_pushed, identification_error, poll,
  poll_idle, settle_stream, waited,
}
use rust_chain.Net.Handler.Poll.{poll_queued, poll_empty}
use rust_chain.Net.Handler.Run.{Input, from_behaviour, from_connection, polled, note, handle, run}

module _ {ℓ} {Protocol TInfo TPush E : Type ℓ} where
  -- What the handler queues: requests and errors.
  abbrev pub IsQueued : ToConnection Protocol TInfo TPush E → Type 0
  IsQueued (outbound_request upgrade) = Unit
  IsQueued (notify_behaviour (identification_error e)) = Unit
  IsQueued (notify_behaviour _) = ⊥

  -- The info that the last event of kind `Identified` tells the behaviour, if there is one.
  abbrev pub last_identified :
      Option TInfo → List (ToConnection Protocol TInfo TPush E) → Option TInfo
  last_identified known [] = known
  last_identified known (notify_behaviour (identified info) ∷ later) =
      last_identified (some info) later
  last_identified known (_ ∷ later) = last_identified known later

  last_identified_queued :
      (event : ToConnection Protocol TInfo TPush E) (known : Option TInfo)
      (later : List (ToConnection Protocol TInfo TPush E))
      → IsQueued event
      → last_identified known (event ∷ later) ≡ last_identified known later
  last_identified_queued (outbound_request upgrade) known later q = refl
  last_identified_queued (notify_behaviour (identified i)) known later q = absurd q
  last_identified_queued (notify_behaviour identification) known later q = refl
  last_identified_queued (notify_behaviour (identification_pushed p)) known later q = refl
  last_identified_queued (notify_behaviour (identification_error e)) known later q = refl

module _ {ℓ} {W : Types {ℓ}} (info : Info W.TInfo W.TPush) (lib : Runtime W) where
  on_connection_event_remote :
      (h : Handler W) (event : ConnectionEvent W.Stream W.IoError W.Change)
      → (on_connection_event info lib h event).remote_info ≡ h.remote_info
  unfolding on_connection_event
  on_connection_event_remote h (fully_negotiated_inbound (inl stream)) = ground arith
  on_connection_event_remote h (fully_negotiated_inbound (inr stream)) = ground arith
  on_connection_event_remote h (fully_negotiated_outbound (inl stream)) = ground arith
  on_connection_event_remote h (fully_negotiated_outbound (inr stream)) = ground arith
  on_connection_event_remote h (dial_upgrade_error error) = refl
  on_connection_event_remote h (local_protocols_change change) = ground arith
  on_connection_event_remote h other_event = refl

  on_connection_event-IsQueued :
      (h : Handler W) (event : ConnectionEvent W.Stream W.IoError W.Change)
      → All IsQueued h.events
      → All IsQueued (on_connection_event info lib h event).events
  unfolding on_connection_event
  on_connection_event-IsQueued h (fully_negotiated_inbound (inl stream)) q = ground arith
  on_connection_event-IsQueued h (fully_negotiated_inbound (inr stream)) q = ground arith
  on_connection_event-IsQueued h (fully_negotiated_outbound (inl stream)) q = ground arith
  on_connection_event-IsQueued h (fully_negotiated_outbound (inr stream)) q = ground arith
  on_connection_event-IsQueued h (dial_upgrade_error error) q = (tt, q)
  on_connection_event-IsQueued h (local_protocols_change change) q = ground arith
  on_connection_event-IsQueued h other_event q = q

  settle_stream_events :
      (h : Handler W) (found : Polled (Success W.TInfo W.TPush) W.E)
      → (settle_stream info h found).1.events ≡ h.events
  unfolding settle_stream
  settle_stream_events h found = ground arith

  settle_stream-last_identified :
      (h : Handler W) (found : Polled (Success W.TInfo W.TPush) W.E) (later : List (Emitted W))
      → last_identified h.remote_info (note (settle_stream info h found).0 later)
        ≡ last_identified (settle_stream info h found).1.remote_info later
  unfolding settle_stream
  settle_stream-last_identified h found later = ground arith

module _ {ℓ} {W : Types {ℓ}} (info : Info W.TInfo W.TPush) (lib : Runtime W) where
  poll_idle_events : (h : Handler W) → (poll_idle info lib h).1.events ≡ h.events
  unfolding poll_idle
  poll_idle_events h =
      ground
        (arith, settle_stream_events info lib (waited lib h) (lib.poll_streams h.active_streams).0)

  poll_idle-last_identified :
      (h : Handler W) (later : List (Emitted W))
      → last_identified h.remote_info (note (poll_idle info lib h).0 later)
        ≡ last_identified (poll_idle info lib h).1.remote_info later
  unfolding poll_idle
  poll_idle-last_identified h later = ground (
    arith,
    settle_stream-last_identified info lib (waited lib h) (lib.poll_streams h.active_streams).0
        later,
  )

  poll-IsQueued : (h : Handler W) → All IsQueued h.events → All IsQueued (poll info lib h).1.events
  poll-IsQueued h q = elim (List-cases h.events) [
    | inl n ↦ rw (poll_empty info lib h n) (subst (All IsQueued) (sym (poll_idle_events h)) q)
    | inr (event, events, e) ↦
        rw (poll_queued info lib h event events e) (subst (All IsQueued) e q).1
  ]

  poll-last_identified :
      (h : Handler W) (later : List (Emitted W))
      → All IsQueued h.events
      → last_identified h.remote_info (note (poll info lib h).0 later)
        ≡ last_identified (poll info lib h).1.remote_info later
  poll-last_identified h later q = elim (List-cases h.events) [
    | inl n ↦ rw (poll_empty info lib h n) (poll_idle-last_identified h later)
    | inr (event, events, e) ↦
        rw (poll_queued info lib h event events e)
          (last_identified_queued event h.remote_info later (subst (All IsQueued) e q).0)
  ]

module _ {ℓ} {W : Types {ℓ}} (info : Info W.TInfo W.TPush) where
  handle-IsQueued :
      (h : Handler W) (input : Runtime W × Input W)
      → All IsQueued h.events
      → All IsQueued (handle info h input).1.events
  unfolding handle
  handle-IsQueued h (lib, from_behaviour (addresses_changed addresses)) q = q
  handle-IsQueued h (lib, from_behaviour push_info) q = (tt, q)
  handle-IsQueued h (lib, from_connection event) q = on_connection_event-IsQueued info lib h event q
  handle-IsQueued h (lib, polled) q = poll-IsQueued info lib h q

  handle-last_identified :
      (h : Handler W) (input : Runtime W × Input W) (later : List (Emitted W))
      → All IsQueued h.events
      → last_identified h.remote_info (note (handle info h input).0 later)
        ≡ last_identified (handle info h input).1.remote_info later
  unfolding handle
  handle-last_identified h (lib, from_behaviour (addresses_changed addresses)) later q = refl
  handle-last_identified h (lib, from_behaviour push_info) later q = refl
  handle-last_identified h (lib, from_connection event) later q =
      rw (on_connection_event_remote info lib h event)
  handle-last_identified h (lib, polled) later q = poll-last_identified info lib h later q

  run-last_identified :
      (h : Handler W) (inputs : List (Runtime W × Input W))
      → All IsQueued h.events
      → last_identified h.remote_info (run info h inputs).0 ≡ (run info h inputs).1.remote_info
  unfolding run
  run-last_identified h [] q = refl
  run-last_identified h (input ∷ inputs) q =
      handle-last_identified h input (run info (handle info h input).1 inputs).0 q
      ∙ run-last_identified (handle info h input).1 inputs (handle-IsQueued h input q)

  -- Whatever happens to a new handler, the info that it keeps of the remote peer is the one that it
  -- last reported to its behaviour as identified, and none before the first report.
  pub run-new_remote_info :
      (lib : Runtime W) (interval : ℕ) (peer : W.PeerId) (addresses : List W.Address)
      (local : W.TInfo) (name push_name : W.Protocol) (inputs : List (Runtime W × Input W))
      → let (emitted, h) =
          run info (new_handler lib interval peer addresses local name push_name) inputs in
        h.remote_info ≡ last_identified none emitted
  unfolding new_handler
  run-new_remote_info lib interval peer addresses local name push_name inputs =
      sym (
        run-last_identified (new_handler lib interval peer addresses local name push_name) inputs
          tt)
