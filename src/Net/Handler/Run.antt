-- ===== src/Net/Handler/Run.antt =====
-- The `Handler` (blocknet/src/libp2p/peer_info/handler.rs) over what happens to it, one call after the
-- other.
use rust_chain.Prelude.{Option, none, some, List, [], ◌∷◌}
use rust_chain.Net.Protocol.{Info}
use rust_chain.Net.Types.{Types}
use rust_chain.Net.Handler.{
  Emitted, InEvent, ConnectionEvent, Runtime, Handler, on_behaviour_event, on_connection_event,
  poll,
}

-- A call of one of the methods of `ConnectionHandler` that change a handler.
pub data Input {ℓ} (W : Types {ℓ}) : Type ℓ where
  from_behaviour : InEvent W.Address → Input W
  from_connection : ConnectionEvent W.Stream W.IoError W.Change → Input W
  polled : Input W

-- Puts what a call gives before what the later ones give.
abbrev pub note {ℓ} : {A : Type ℓ} → Option A → List A → List A
note (some a) later = a ∷ later
note none later = later

module _ {ℓ} {W : Types {ℓ}} (info : Info W.TInfo W.TPush) where
  unfoldable pub handle : Handler W → Runtime W × Input W → Option (Emitted W) × Handler W
  unfolding poll on_connection_event on_behaviour_event
  handle h (lib, from_behaviour event) = (none, on_behaviour_event h event)
  handle h (lib, from_connection event) = (none, on_connection_event info lib h event)
  handle h (lib, polled) = poll info lib h

  -- Each call comes with the libraries as they are at its time. What the polls give, in their order,
  -- and the handler that is left.
  unfoldable pub run : Handler W → List (Runtime W × Input W) → List (Emitted W) × Handler W
  unfolding handle
  run h [] = ([], h)
  run h (input ∷ inputs) =
      let (emitted, h') = handle h input in
      let (later, h'') = run h' inputs in (note emitted later, h'')
