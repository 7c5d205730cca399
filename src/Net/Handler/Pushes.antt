-- ===== src/Net/Handler/Pushes.antt =====
-- When a `Handler` (blocknet/src/libp2p/peer_info/handler.rs) asks for a stream to push its info.
use rust_chain.Prelude.{
  ℕ, false, Option, none, some, List, [], ◌∷◌, ◌≡◌, refl, inl, inr, All, arith, List-cases,
  Bool-cases, subst,
}
use rust_chain.Net.Protocol.{Info}
use rust_chain.Net.Types.{Types}
use rust_chain.Net.Handler.{
  Runtime, Handler, addresses_changed, push_info, Polled, Success, ToConnection, outbound_request,
  notify_behaviour, ConnectionEvent, fully_negotiated_inbound, fully_negotiated_outbound,
  dial_upgrade_error, local_protocols_change, other_event, new_handler, poll, poll_idle,
  settle_stream, waited, on_connection_event,
}
use rust_chain.Net.Handler.Poll.{poll_queued, poll_empty}
use rust_chain.Net.Handler.Run.{Input, from_behaviour, from_connection, polled, note, handle, run}

-- Not a request for a stream on the push protocol.
abbrev pub NotPush {ℓ} :
    {Protocol TInfo TPush E : Type ℓ} → ToConnection Protocol TInfo TPush E → Type 0
NotPush (outbound_request (inl name)) = Unit
NotPush (outbound_request (inr name)) = ⊥
NotPush (notify_behaviour event) = Unit

-- Neither the behaviour asks for a push, nor the remote peer for the info.
abbrev pub IsUnasked {ℓ} : {W : Types {ℓ}} → Input W → Type 0
IsUnasked (from_behaviour (addresses_changed addresses)) = Unit
IsUnasked (from_behaviour push_info) = ⊥
IsUnasked (from_connection (fully_negotiated_inbound (inl stream))) = ⊥
IsUnasked (from_connection (fully_negotiated_inbound (inr stream))) = Unit
IsUnasked (from_connection (fully_negotiated_outbound output)) = Unit
IsUnasked (from_connection (dial_upgrade_error error)) = Unit
IsUnasked (from_connection (local_protocols_change change)) = Unit
IsUnasked (from_connection other_event) = Unit
IsUnasked polled = Unit

-- No info was sent to the remote peer yet, and no push is queued.
record IsQuiet {ℓ} {W : Types {ℓ}} (h : Handler W) : Type ℓ where
  unexchanged : h.exchanged_one_periodic_identify ≡ false
  unpushed : All NotPush h.events

module _ {ℓ} {W : Types {ℓ}} (info : Info W.TInfo W.TPush) (lib : Runtime W) where
  on_connection_event-IsQuiet :
      (h : Handler W) (event : ConnectionEvent W.Stream W.IoError W.Change)
      → IsUnasked {W = W} (from_connection event)
      → IsQuiet h
      → IsQuiet (on_connection_event info lib h event)
  unfolding on_connection_event
  on_connection_event-IsQuiet h (fully_negotiated_inbound (inl stream)) u q = absurd u
  on_connection_event-IsQuiet h (fully_negotiated_inbound (inr stream)) u q = ground arith
  on_connection_event-IsQuiet h (fully_negotiated_outbound (inl stream)) u q = ground arith
  on_connection_event-IsQuiet h (fully_negotiated_outbound (inr stream)) u q = ground arith
  on_connection_event-IsQuiet h (dial_upgrade_error error) u q = record {
    unexchanged = q.unexchanged;
    unpushed = (tt, q.unpushed);
  }
  on_connection_event-IsQuiet h (local_protocols_change change) u q = ground arith
  on_connection_event-IsQuiet h other_event u q = q

  settle_stream-NotPush :
      (h : Handler W) (found : Polled (Success W.TInfo W.TPush) W.E)
      → All NotPush (note (settle_stream info h found).0 [])
  unfolding settle_stream
  settle_stream-NotPush h found = ground arith

  settle_stream-IsQuiet :
      (h : Handler W) (found : Polled (Success W.TInfo W.TPush) W.E)
      → IsQuiet h
      → IsQuiet (settle_stream info h found).1
  unfolding settle_stream
  settle_stream-IsQuiet h found q = ground arith

  poll_idle-IsQuiet :
      (h : Handler W)
      → IsQuiet h
      → All NotPush (note (poll_idle info lib h).0 []) × IsQuiet (poll_idle info lib h).1
  unfolding poll_idle
  poll_idle-IsQuiet h q = elim (Bool-cases (lib.poll_delay h.trigger_next_identify).0) [
    | inl due ↦ rw due ((tt, tt), record { unexchanged = q.unexchanged; unpushed = q.unpushed })
    | inr early ↦ rw early (
      settle_stream-NotPush (waited lib h) (lib.poll_streams h.active_streams).0,
      settle_stream-IsQuiet (waited lib h) (lib.poll_streams h.active_streams).0
          (record { unexchanged = q.unexchanged; unpushed = q.unpushed }),
    )
  ]

  poll-IsQuiet :
      (h : Handler W)
      → IsQuiet h
      → All NotPush (note (poll info lib h).0 []) × IsQuiet (poll info lib h).1
  poll-IsQuiet h q = elim (List-cases h.events) [
    | inl n ↦ rw (poll_empty info lib h n) (poll_idle-IsQuiet h q)
    | inr (event, events, e) ↦
        let unpushed = subst (All NotPush) e q.unpushed in
        rw (poll_queued info lib h event events e)
          ((unpushed.0, tt), record { unexchanged = q.unexchanged; unpushed = unpushed.1 })
  ]

pub All-note {ℓ κ} :
    {A : Type ℓ} (P : A → Type κ) (o : Option A) (later : List A)
    → All P (note o [])
    → All P later
    → All P (note o later)
All-note P none later h k = k
All-note P (some a) later h k = (h.0, k)

module _ {ℓ} {W : Types {ℓ}} (info : Info W.TInfo W.TPush) where
  handle-IsQuiet :
      (h : Handler W) (lib : Runtime W) (input : Input W)
      → IsUnasked input
      → IsQuiet h
      → All NotPush (note (handle info h (lib, input)).0 [])
        × IsQuiet (handle info h (lib, input)).1
  unfolding handle
  handle-IsQuiet h lib (from_behaviour (addresses_changed addresses)) u q =
      (tt, record { unexchanged = q.unexchanged; unpushed = q.unpushed })
  handle-IsQuiet h lib (from_behaviour push_info) u q = absurd u
  handle-IsQuiet h lib (from_connection event) u q =
      (tt, on_connection_event-IsQuiet info lib h event u q)
  handle-IsQuiet h lib polled u q = poll-IsQuiet info lib h q

  run-NotPush :
      (h : Handler W) (inputs : List (Runtime W × Input W))
      → All (λ input. IsUnasked input.1) inputs
      → IsQuiet h
      → All NotPush (run info h inputs).0
  unfolding run
  run-NotPush h [] u q = tt
  run-NotPush h ((lib, input) ∷ inputs) u q =
      let now = handle-IsQuiet h lib input u.0 q in
      All-note NotPush _ _ now.0 (run-NotPush (handle info h (lib, input)).1 inputs u.1 now.1)

  -- As long as neither the behaviour asks for it nor the remote peer has asked for the info, a new
  -- handler asks for no stream to push its info, whatever else happens, changes of the local
  -- protocols included.
  pub run-new-NotPush :
      (lib : Runtime W) (interval : ℕ) (peer : W.PeerId) (addresses : List W.Address)
      (local : W.TInfo) (name push_name : W.Protocol) (inputs : List (Runtime W × Input W))
      → All (λ input. IsUnasked input.1) inputs
      → All NotPush
          (run info (new_handler lib interval peer addresses local name push_name) inputs).0
  unfolding new_handler
  run-new-NotPush lib interval peer addresses local name push_name inputs u =
      run-NotPush (new_handler lib interval peer addresses local name push_name) inputs u
        (record { unexchanged = refl; unpushed = tt })
