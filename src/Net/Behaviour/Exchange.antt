-- ===== src/Net/Behaviour/Exchange.antt =====
-- What the `Behaviour` (blocknet/src/libp2p/peer_info/behaviour.rs) reports of a connection whose
-- `Handler` (blocknet/src/libp2p/peer_info/handler.rs) it has made.
use rust_chain.Prelude.{Option, none, some, List, [], ◌∷◌, ◌++◌, ◌≡◌, refl, sym, ◌∙◌, map}
use mathlib.Core.List.{append_assoc, append-nil}
use rust_chain.Prelude.Eq.{Eq}
use rust_chain.Net.Types.{Types}
use rust_chain.Net.Protocol.{Info}
use rust_chain.Net.Handler.{
  Emitted, Runtime, outbound_request, notify_behaviour, identified, identification,
  identification_pushed, identification_error,
}
use rust_chain.Net.Handler.Run.{Input, run}
use rust_chain.Net.Handler.Remote.{last_identified, run-new_remote_info}
use rust_chain.Net.Behaviour.{
  Behaviour, Addresses, Event, received, sent, pushed, failed, generate_event,
  on_connection_handler_event, all_addresses, handle_established_connection,
}

module _ {ℓ} {W : Types {ℓ}} where
  -- The swarm hands what a handler notifies to the behaviour, and opens the streams asked for.
  unfoldable pub forward : Behaviour W → W.PeerId → List (Emitted W) → Behaviour W
  unfolding on_connection_handler_event
  forward b peer [] = b
  forward b peer (outbound_request upgrade ∷ later) = forward b peer later
  forward b peer (notify_behaviour event ∷ later) =
      forward (on_connection_handler_event b peer event) peer later

  -- The events of the peer's handler, in the behaviour's words.
  unfoldable pub reports : W.PeerId → List (Emitted W) → List (Event W)
  reports peer [] = []
  reports peer (outbound_request upgrade ∷ later) = reports peer later
  reports peer (notify_behaviour (identified info) ∷ later) =
      received peer info ∷ reports peer later
  reports peer (notify_behaviour identification ∷ later) = sent peer ∷ reports peer later
  reports peer (notify_behaviour (identification_pushed info) ∷ later) =
      pushed peer info ∷ reports peer later
  reports peer (notify_behaviour (identification_error error) ∷ later) =
      failed peer error ∷ reports peer later

  -- The info that the last `Received` tells, if there is one.
  unfoldable pub last_received : Option W.TInfo → List (Event W) → Option W.TInfo
  last_received known [] = known
  last_received known (received peer info ∷ later) = last_received (some info) later
  last_received known (sent peer ∷ later) = last_received known later
  last_received known (pushed peer info ∷ later) = last_received known later
  last_received known (failed peer error ∷ later) = last_received known later

  forward-events :
      (b : Behaviour W) (peer : W.PeerId) (emitted : List (Emitted W))
      → (forward b peer emitted).events ≡ b.events ++ map generate_event (reports peer emitted)
  unfolding forward reports
  forward-events b peer [] = sym (append-nil b.events)
  forward-events b peer (outbound_request upgrade ∷ later) = forward-events b peer later
  forward-events b peer (notify_behaviour (identified info) ∷ later) =
      forward-events (on_connection_handler_event b peer (identified info)) peer later
      ∙ append_assoc b.events _ _
  forward-events b peer (notify_behaviour identification ∷ later) =
      forward-events (on_connection_handler_event b peer identification) peer later
      ∙ append_assoc b.events _ _
  forward-events b peer (notify_behaviour (identification_pushed info) ∷ later) =
      forward-events (on_connection_handler_event b peer (identification_pushed info)) peer later
      ∙ append_assoc b.events _ _
  forward-events b peer (notify_behaviour (identification_error error) ∷ later) =
      forward-events (on_connection_handler_event b peer (identification_error error)) peer later
      ∙ append_assoc b.events _ _

last_received-reports {ℓ} :
    (W : Types {ℓ}) (peer : W.PeerId) (known : Option W.TInfo) (emitted : List (Emitted W))
    → last_received known (reports {W = W} peer emitted) ≡ last_identified known emitted
unfolding last_received reports
last_received-reports W peer known [] = refl
last_received-reports W peer known (outbound_request upgrade ∷ later) =
    last_received-reports W peer known later
last_received-reports W peer known (notify_behaviour (identified info) ∷ later) =
    last_received-reports W peer (some info) later
last_received-reports W peer known (notify_behaviour identification ∷ later) =
    last_received-reports W peer known later
last_received-reports W peer known (notify_behaviour (identification_pushed info) ∷ later) =
    last_received-reports W peer known later
last_received-reports W peer known (notify_behaviour (identification_error error) ∷ later) =
    last_received-reports W peer known later

module _ {ℓ} {W : Types {ℓ}} ⦃eq_peer : Eq W.PeerId⦄ ⦃eq_connection : Eq W.ConnectionId⦄
    (lib : Addresses W) (info : Info W.TInfo W.TPush) where
  -- The handler that the behaviour makes for a connection, and whatever then happens to it: once
  -- the swarm has handed over what it gave, the behaviour has queued one event for each event of the
  -- handler, and the last info that these tell of the peer is the one that the handler keeps.
  pub forward-handler :
      (runtime : Runtime W) (b : Behaviour W) (peer : W.PeerId)
      (inputs : List (Runtime W × Input W))
      → let (emitted, h) = run info (handle_established_connection lib runtime b peer) inputs in
        ((forward b peer emitted).events
          ≡ b.events ++ map generate_event (reports {W = W} peer emitted))
        × (last_received none (reports {W = W} peer emitted) ≡ h.remote_info)
  unfolding handle_established_connection
  forward-handler runtime b peer inputs =
      let h = handle_established_connection lib runtime b peer in
      (
        forward-events b peer (run info h inputs).0,
        last_received-reports W peer none (run info h inputs).0
            ∙ sym (
                run-new_remote_info info runtime b.config.interval peer (all_addresses lib b)
                  b.local_info b.config.protocol_name b.config.push_protocol_name inputs),
      )
