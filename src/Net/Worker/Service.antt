-- ===== src/Net/Worker/Service.antt =====
-- blocknet/src/libp2p/mod.rs: the `Service` and its events, on the actions of the `Worker`.
pub mod Shared
pub mod Publish
use rust_chain.Prelude.{ℕ, List, [], ◌∷◌, ◌++◌, ◌≡◌, map, Result, ok, err, diverged, map_err, ◌>>=◌}
use rust_chain.Prelude.HashMap.{HashMap}
use rust_chain.Net.Service.{Service as ServiceT, Event as EventT, Message, BroadcastService}
use rust_chain.Net.Protocol.{Info}
use rust_chain.Prelude.{Outcome, returned}
use rust_chain.SyncExtra.{Lock, new_lock, read_unwrap, write_unwrap, hold, share}
use rust_chain.Net.Codec.Json.{Serde}
use rust_chain.Net.Worker.{
  Error, codec, channel_send, unknown_origin_broadcast, Delivery, from_peer, unknown_origin,
  ActionItem, broadcast_send, broadcast_listen,
}

pub record PeerFullInfo {ℓ} (PeerInfo : Type ℓ) : Type ℓ where
  pub info : PeerInfo

-- `impl Info for PeerFullInfo`, whose pushes are whole infos.
abbrev pub peer_full_info {ℓ} :
    {PeerInfo : Type ℓ} → Info (PeerFullInfo PeerInfo) (PeerFullInfo PeerInfo)
peer_full_info = record { into_push = λ info. info; merge = λ info push. push }

-- `Service`: what it shares with the `Worker` that it comes from and with its other clones, behind
-- locks. The sender of actions, its third field, is the channel `Actions` below.
pub record Service {ℓ} (PeerId PeerInfo : Type ℓ) : Type ℓ where
  pub peers : Lock (HashMap PeerId (PeerFullInfo PeerInfo))
  pub local_info : Lock (PeerFullInfo PeerInfo)

-- What `Worker::new` shares.
unfoldable pub new_service {ℓ} : {PeerId PeerInfo : Type ℓ} → PeerInfo → Service PeerId PeerInfo
new_service info = record { peers = new_lock []; local_info = new_lock (record { info = info }) }

module _ {ℓ} {PeerId PeerInfo : Type ℓ} where
  unfoldable pub local_info : Service PeerId PeerInfo → Outcome PeerInfo
  unfolding read_unwrap share
  local_info service = share (read_unwrap service.local_info) (λ full. returned full.info)

  unfoldable pub set_local_info :
      Service PeerId PeerInfo → PeerInfo → Outcome (Unit {0}) × Service PeerId PeerInfo
  unfolding write_unwrap hold
  set_local_info service info =
      let (outcome, lock) =
        hold (write_unwrap service.local_info) service.local_info
          (λ full. (returned tt, record { info = info })) in
      (outcome, record service { local_info = lock })

  unfoldable pub peers : Service PeerId PeerInfo → Outcome (List (PeerId × PeerInfo))
  unfolding read_unwrap share
  peers service =
      share (read_unwrap service.peers)
        (λ infos. returned (map (λ entry. (entry.0, entry.1.info)) infos))

-- `Event<Value>`.
pub record Event {ℓ} (PeerId Value : Type ℓ) : Type ℓ where
  pub origin : PeerId
  pub value : Value

-- `impl ServiceT for Service` and `impl EventT for Event`.
abbrev pub service {ℓ} :
    {PeerId PeerInfo : Type ℓ} → ServiceT (Service PeerId PeerInfo) PeerId PeerInfo
service = record { local_info = local_info; set_local_info = set_local_info; peers = peers }

abbrev pub event {ℓ} : {PeerId Value : Type ℓ} → EventT (Event PeerId Value) PeerId Value
event = record {
  origin = λ event. event.origin;
  value = λ event. event.value;
  into_value = λ event. event.value;
}

-- The channel of the actions (`futures::channel::mpsc`): a send that is taken puts the action last.
pub record Actions {ℓ} (Queue Text Sender SendError : Type ℓ) : Type ℓ where
  pub queued : Queue → List (ActionItem Text Sender)
  pub send : Queue → ActionItem Text Sender → Result (Unit {0}) SendError × Queue
  pub send_lem :
      (queue : Queue) (action : ActionItem Text Sender)
      → (send queue action).0 ≡ ok tt
      → queued (send queue action).1 ≡ queued queue ++ action ∷ []

module _ {ℓ} {Queue Text Sender SendError GossipError : Type ℓ}
    (actions : Actions Queue Text Sender SendError) where
  -- `self.action_sender.send(…).await?`.
  unfoldable pub send_action :
      Queue → ActionItem Text Sender → Result (Unit {0}) (Error Text SendError GossipError) × Queue
  send_action queue action =
      (map_err channel_send (actions.send queue action).0, (actions.send queue action).1)

module _ {ℓ} {Msg Fault Queue Text Sender SendError GossipError : Type ℓ}
    (serde : Serde Msg Fault Text) (m : Message Msg Text)
    (actions : Actions Queue Text Sender SendError) where
  unfoldable pub broadcast :
      Queue → Msg → Result (Unit {0}) (Error Text SendError GossipError) × Queue
  unfolding send_action
  broadcast queue message = elim (serde.to_vec message) [
    | ok bytes ↦
        send_action actions queue
          (broadcast_send (record { topic = m.topic message; serialized = bytes }))
    | err e ↦ (err (codec (serde.format e)), queue)
    | diverged ↦ (diverged, queue)
  ]

module _ {ℓ} {PeerId Msg Fault Text SendError GossipError : Type ℓ}
    (serde : Serde Msg Fault Text) where
  -- What the stream of `listen` makes of an item of its channel.
  unfoldable pub receive :
      Delivery PeerId Text → Result (Event PeerId Msg) (Error Text SendError GossipError)
  receive (from_peer origin msg) = do
    value ← map_err (λ e. codec (serde.format e)) (serde.from_slice msg.serialized)
    ok (record { origin = origin; value = value })
  receive (unknown_origin msg) = err (unknown_origin_broadcast msg)

  -- The stream of `listen`: the outcome of the action's send, and then the items of the channel.
  unfoldable pub listen :
      {Queue Sender : Type ℓ}
      → Actions Queue Text Sender SendError
      → Queue
      → Text
      → Sender
      → List (Delivery PeerId Text)
      → List (Result (Event PeerId Msg) (Error Text SendError GossipError)) × Queue
  unfolding send_action receive
  listen actions queue topic sender items =
      let (sent, queue') =
        send_action {GossipError = GossipError} actions queue (broadcast_listen sender topic) in
      elim sent [
        | ok _ ↦ (map receive items, queue')
        | err e ↦ (err e ∷ [], queue')
        | diverged ↦ (diverged ∷ [], queue')
      ]

-- `impl BroadcastServiceT for Service`, with the sender of the channel that `listen` makes.
abbrev pub broadcast_service {ℓ} :
    {PeerId Msg Fault Queue Text Sender SendError GossipError : Type ℓ}
    → Serde Msg Fault Text
    → Message Msg Text
    → Actions Queue Text Sender SendError
    → Sender
    → BroadcastService Queue Msg Text
        (Delivery PeerId Text)
        (Event PeerId Msg)
        (Error Text SendError GossipError)
broadcast_service {PeerId = PeerId} {GossipError = GossipError} serde m actions sender = record {
  listen = λ queue topic. (
    λ items.
        (listen {PeerId = PeerId} {GossipError = GossipError} serde actions queue topic sender
          items).0,
    (listen {PeerId = PeerId} {GossipError = GossipError} serde actions queue topic sender []).1,
  );
  broadcast = broadcast serde m actions;
}
