-- ===== src/Net/Worker.antt =====
-- blocknet/src/libp2p/mod.rs: the `Worker`, its actions and its step.
pub mod Silence
pub mod Listeners
pub mod Service
use rust_chain.Prelude.{
  ℕ, Bool, true, Option, none, some, List, [], ◌∷◌, ◌++◌, ◌≡◌, ◌⊎◌, inl, inr, filter, Result, ok,
  err, diverged, map_err,
}
use mathlib.Core.Option
use rust_chain.Prelude.Eq.{Eq}
use rust_chain.Prelude.HashMap
use rust_chain.Prelude.HashMap.{HashMap}

-- `AnyMessage`; a topic is a `Text`, and what serde makes of a value is a list of bytes.
pub record AnyMessage {ℓ} (Text : Type ℓ) : Type ℓ where
  pub topic : Text
  pub serialized : List ℕ

-- `AnyRequest` and `AnyResponse`.
pub record AnyRequest {ℓ} (Text : Type ℓ) : Type ℓ where
  pub protocol_id : Text
  pub serialized : List ℕ

pub record AnyResponse {ℓ} (Text : Type ℓ) : Type ℓ where
  pub protocol_id : Text
  pub serialized : List ℕ

-- `Error`, less what only building a worker returns.
pub data Error {ℓ} (Text SendError GossipError : Type ℓ) : Type ℓ where
  codec : Text → Error Text SendError GossipError
  channel_send : SendError → Error Text SendError GossipError
  gossipsub_subscription : GossipError → Error Text SendError GossipError
  gossipsub_publish : GossipError → Error Text SendError GossipError
  unknown_origin_broadcast : AnyMessage Text → Error Text SendError GossipError

-- What the worker sends to a listener: `Ok` of a message and its origin, or `Err` of
-- `UnknownOriginBroadcast`.
pub data Delivery {ℓ} (PeerId Text : Type ℓ) : Type ℓ where
  from_peer : PeerId → AnyMessage Text → Delivery PeerId Text
  unknown_origin : AnyMessage Text → Delivery PeerId Text

pub data ActionItem {ℓ} (Text Sender : Type ℓ) : Type ℓ where
  broadcast_send : AnyMessage Text → ActionItem Text Sender
  broadcast_listen : Sender → Text → ActionItem Text Sender

-- A `gossipsub::Message`, and any other event of the swarm.
pub data SwarmEvent {ℓ} (PeerId Hash : Type ℓ) : Type ℓ where
  message : Option PeerId → Hash → List ℕ → SwarmEvent PeerId Hash
  other : SwarmEvent PeerId Hash

-- The libraries that the worker drives. `futures::channel::mpsc`: a send that the channel takes, or
-- an error; a sender is closed once its receiver is gone, and sends on it fail. `gossipsub`: its
-- state after a call, or an error.
pub record Libraries {ℓ} (Text Sender Hash Gossip SendError GossipError : Type ℓ) : Type ℓ where
  pub is_closed : Sender → Bool
  pub send : Sender → Result (Unit {0}) SendError
  pub send_closed : (s : Sender) → is_closed s ≡ true → (e : SendError) × (send s ≡ err e)
  pub hash : Text → Hash
  pub publish : Gossip → Text → List ℕ → Result Gossip GossipError
  pub subscribe : Gossip → Text → Result Gossip GossipError

-- `Worker`, less the peers and the local info, which `step` does not use: see the module Service. `delivered` records the
-- sends that the channels took.
pub record Worker {ℓ} (PeerId Text Sender Hash Gossip : Type ℓ) : Type ℓ where
  pub gossip : Gossip
  pub broadcast_listen_senders : HashMap Hash (Text × List Sender)
  pub delivered : List (Sender × Delivery PeerId Text)

module _ {ℓ} {Text Sender Hash : Type ℓ} ⦃e : Eq Hash⦄ where
  -- `.entry(hash).or_insert((topic, Vec::new())).1.push(sender)`.
  unfoldable pub push_sender :
      Hash → Text → Sender → HashMap Hash (Text × List Sender) → HashMap Hash (Text × List Sender)
  push_sender topic_hash topic sender senders =
      let (name, listeners) = Option.get_or (HashMap.get topic_hash senders) (topic, []) in
      HashMap.insert topic_hash (name, listeners ++ sender ∷ []) senders

module _ {ℓ} {Text Sender Hash Gossip SendError GossipError : Type ℓ}
    (lib : Libraries Text Sender Hash Gossip SendError GossipError) where
  -- `entry.1.retain(|sender| sender.is_closed())`.
  unfoldable pub retain : Text × List Sender → Text × List Sender
  retain (topic, senders) = (topic, filter lib.is_closed senders)

module _ {ℓ} {PeerId Text Sender Hash Gossip SendError GossipError : Type ℓ} ⦃e : Eq Hash⦄
    (lib : Libraries Text Sender Hash Gossip SendError GossipError) where
  -- The item that `step` sends to each listener of a message.
  unfoldable pub delivery : Option PeerId → AnyMessage Text → Delivery PeerId Text
  delivery (some source) any_message = from_peer source any_message
  delivery none any_message = unknown_origin any_message

  -- The `for sender in &mut entry.1`: it ends at the first send that fails.
  unfoldable pub send_all :
      Delivery PeerId Text
      → List Sender
      → List (Sender × Delivery PeerId Text)
      → Result (Unit {0}) SendError × List (Sender × Delivery PeerId Text)
  send_all item [] log = (ok tt, log)
  send_all item (sender ∷ senders) log = elim (lib.send sender) [
    | ok _ ↦ send_all item senders (log ++ (sender, item) ∷ [])
    | err error ↦ (err error, log)
    | diverged ↦ (diverged, log)
  ]

  -- The arm of `step` for a gossipsub message, with the entry of its topic at hand.
  unfoldable pub deliver :
      Worker PeerId Text Sender Hash Gossip
      → Option PeerId
      → Hash
      → List ℕ
      → Text × List Sender
      → Result (Unit {0}) (Error Text SendError GossipError) × Worker PeerId Text Sender Hash Gossip
  unfolding delivery send_all retain
  deliver w source topic_hash bytes entry =
      let kept = retain lib entry in
      let any_message : AnyMessage Text = record { topic = kept.0; serialized = bytes } in
      let sent = send_all (delivery source any_message) kept.1 w.delivered in
      (
        map_err channel_send sent.0,
        record w {
          broadcast_listen_senders =
              HashMap.modify topic_hash (retain lib) w.broadcast_listen_senders;
          delivered = sent.1;
        },
      )

  -- The arm of `step` for an event of the swarm.
  unfoldable pub on_event :
      Worker PeerId Text Sender Hash Gossip
      → SwarmEvent PeerId Hash
      → Result (Unit {0}) (Error Text SendError GossipError) × Worker PeerId Text Sender Hash Gossip
  unfolding deliver
  on_event w (message source topic_hash bytes) =
      elim (HashMap.get topic_hash w.broadcast_listen_senders) [
        | some entry ↦ deliver w source topic_hash bytes entry
        | none ↦ (ok tt, w)
      ]
  on_event w other = (ok tt, w)

  -- The arm of `step` for an action.
  unfoldable pub on_action :
      Worker PeerId Text Sender Hash Gossip
      → ActionItem Text Sender
      → Result (Unit {0}) (Error Text SendError GossipError) × Worker PeerId Text Sender Hash Gossip
  unfolding push_sender
  on_action w (broadcast_send m) = elim (lib.publish w.gossip m.topic m.serialized) [
    | ok gossip ↦ (ok tt, record w { gossip = gossip })
    | err error ↦ (err (gossipsub_publish error), w)
    | diverged ↦ (diverged, w)
  ]
  on_action w (broadcast_listen sender topic) = elim (lib.subscribe w.gossip topic) [
    | ok gossip ↦ (
      ok tt,
      record w {
        gossip = gossip;
        broadcast_listen_senders =
            push_sender (lib.hash topic) topic sender w.broadcast_listen_senders;
      },
    )
    | err error ↦ (err (gossipsub_subscription error), w)
    | diverged ↦ (diverged, w)
  ]

  -- `Worker::step`, on what `select!` takes.
  unfoldable pub step :
      Worker PeerId Text Sender Hash Gossip
      → ActionItem Text Sender ⊎ SwarmEvent PeerId Hash
      → Result (Unit {0}) (Error Text SendError GossipError) × Worker PeerId Text Sender Hash Gossip
  unfolding on_action on_event
  step w (inl action) = on_action w action
  step w (inr event) = on_event w event

-- `Worker::run`, over the inputs that arrive, each with the libraries as they are at that time: it
-- ends with the first error.
unfoldable pub run {ℓ} :
    {PeerId Text Sender Hash Gossip SendError GossipError : Type ℓ} ⦃e : Eq Hash⦄
    → Worker PeerId Text Sender Hash Gossip
    → List (
        Libraries Text Sender Hash Gossip SendError GossipError
        × (ActionItem Text Sender ⊎ SwarmEvent PeerId Hash))
    → Result (Unit {0}) (Error Text SendError GossipError) × Worker PeerId Text Sender Hash Gossip
unfolding step
run w [] = (ok tt, w)
run w ((lib, input) ∷ inputs) =
    let rest = run (step lib w input).1 inputs in
    elim (step lib w input).0 [
      | ok _ ↦ rest
      | err error ↦ (err error, (step lib w input).1)
      | diverged ↦ (diverged, (step lib w input).1)
    ]
