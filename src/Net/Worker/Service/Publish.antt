-- ===== src/Net/Worker/Service/Publish.antt =====
-- Broadcasts of blocknet/src/libp2p/mod.rs, from the service that sends them to what the worker
-- publishes.
use rust_chain.Prelude.{
  List, [], ◌∷◌, ◌++◌, ◌≡◌, refl, sym, ap, ◌∙◌, map, inl, inr, Result-cases, Result, ok, err,
  diverged, arith,
}
use mathlib.Core.List.{append_assoc, append-nil, map-append}
use rust_chain.Prelude.Eq.{Eq}
use rust_chain.Net.Codec.Json.{Serde}
use rust_chain.Net.Worker.{
  AnyMessage, ActionItem, broadcast_send, Error, codec, Libraries, Worker, on_action, step, run,
}
use rust_chain.Net.Worker.Listeners.{run_ok}
use rust_chain.Net.Service.{Message}
use rust_chain.Net.Worker.Service.{Actions, send_action, broadcast}

module _ {ℓ} {Msg Fault Queue Text Sender SendError GossipError : Type ℓ}
    (serde : Serde Msg Fault Text) (m : Message Msg Text)
    (actions : Actions Queue Text Sender SendError) where
  -- Broadcasts, one after the other: their answers, and the channel that they leave.
  unfoldable pub broadcast_all :
      Queue → List Msg → List (Result (Unit {0}) (Error Text SendError GossipError)) × Queue
  broadcast_all queue [] = ([], queue)
  broadcast_all queue (message ∷ messages) =
      let (answer, queue') = broadcast {GossipError = GossipError} serde m actions queue message in
      let (answers, queue'') = broadcast_all queue' messages in (answer ∷ answers, queue'')

module _ {ℓ} {Msg Fault Text : Type ℓ} (serde : Serde Msg Fault Text) (m : Message Msg Text) where
  -- The messages that have a JSON, as it.
  unfoldable pub encoded : List Msg → List (AnyMessage Text)
  encoded [] = []
  encoded (message ∷ messages) = elim (serde.to_vec message) [
    | ok bytes ↦ record { topic = m.topic message; serialized = bytes } ∷ encoded messages
    | err _ ↦ encoded messages
    | diverged ↦ encoded messages
  ]

  encoded-cons :
      (message : Msg) (messages : List Msg)
      → encoded (message ∷ messages) ≡ encoded (message ∷ []) ++ encoded messages
  unfolding encoded
  encoded-cons message messages = elim (Result-cases (serde.to_vec message)) [
    | inl (bytes, v) ↦ rw (v, encoded) refl
    | inr (inl (e, v)) ↦ rw (v, encoded) refl
    | inr (inr v) ↦ rw (v, encoded) refl
  ]

module _ {ℓ} {Msg Fault Text SendError GossipError : Type ℓ} (serde : Serde Msg Fault Text) where
  abbrev pub answer_to : Msg → Result (Unit {0}) (Error Text SendError GossipError)
  answer_to message = elim (serde.to_vec message) [
    | ok _ ↦ ok tt
    | err e ↦ err (codec (serde.format e))
    | diverged ↦ diverged
  ]

module _ {ℓ} (GossipError : Type ℓ) {Msg Fault Queue Text Sender SendError : Type ℓ}
    (serde : Serde Msg Fault Text) (m : Message Msg Text)
    (actions : Actions Queue Text Sender SendError)
    (taken : (queue : Queue) (action : ActionItem Text Sender)
      → (actions.send queue action).0 ≡ ok tt) where
  -- One broadcast: its answer, and what it queues.
  broadcast-answer :
      (queue : Queue) (message : Msg)
      → (broadcast {GossipError = GossipError} serde m actions queue message).0
        ≡ answer_to serde message
  unfolding broadcast send_action
  broadcast-answer queue message = elim (Result-cases (serde.to_vec message)) [
    | inl (bytes, v) ↦
        let item : ActionItem Text Sender =
          broadcast_send (record { topic = m.topic message; serialized = bytes }) in
        ground (arith, v, taken queue item)
    | inr (inl (e, v)) ↦ ground (arith, v)
    | inr (inr v) ↦ ground (arith, v)
  ]

  broadcast-queued :
      (queue : Queue) (message : Msg)
      → actions.queued (broadcast {GossipError = GossipError} serde m actions queue message).1
        ≡ actions.queued queue ++ map broadcast_send (encoded serde m (message ∷ []))
  unfolding broadcast send_action encoded
  broadcast-queued queue message = elim (Result-cases (serde.to_vec message)) [
    | inl (bytes, v) ↦ rw (v, broadcast, encoded) (actions.send_lem queue _ (taken queue _))
    | inr (inl (e, v)) ↦ rw (v, broadcast, encoded) (sym (append-nil _))
    | inr (inr v) ↦ rw (v, broadcast, encoded) (sym (append-nil _))
  ]

  broadcast_all-answers :
      (queue : Queue) (messages : List Msg)
      → (broadcast_all {GossipError = GossipError} serde m actions queue messages).0
        ≡ map (answer_to serde) messages
  unfolding broadcast_all
  broadcast_all-answers queue [] = refl
  broadcast_all-answers queue (message ∷ messages) =
      let queue' = (broadcast {GossipError = GossipError} serde m actions queue message).1 in
      ap (λ a. a ∷ (broadcast_all {GossipError = GossipError} serde m actions queue' messages).0)
        (broadcast-answer queue message)
      ∙ ap (λ rest. answer_to serde message ∷ rest) (broadcast_all-answers queue' messages)

  broadcast_all-queued :
      (queue : Queue) (messages : List Msg)
      → actions.queued (broadcast_all {GossipError = GossipError} serde m actions queue messages).1
        ≡ actions.queued queue ++ map broadcast_send (encoded serde m messages)
  unfolding broadcast_all encoded
  broadcast_all-queued queue [] = sym (append-nil _)
  broadcast_all-queued queue (message ∷ messages) =
      let queue' = (broadcast {GossipError = GossipError} serde m actions queue message).1 in
      let first = encoded serde m (message ∷ []) in
      let rest = encoded serde m messages in
      broadcast_all-queued queue' messages
      ∙ ap (λ q. q ++ map broadcast_send rest) (broadcast-queued queue message)
      ∙ append_assoc (actions.queued queue) (map broadcast_send first) (map broadcast_send rest)
      ∙ ap (λ l. actions.queued queue ++ l)
          (sym (map-append broadcast_send first rest)
            ∙ ap (map broadcast_send) (sym (encoded-cons serde m message messages)))

module _ {ℓ} {PeerId Text Sender Hash Gossip SendError GossipError : Type ℓ} ⦃e : Eq Hash⦄
    (lib : Libraries Text Sender Hash Gossip SendError GossipError)
    (published : Gossip → List (AnyMessage Text))
    (publishes : (gossip : Gossip) (message : AnyMessage Text)
      → (gossip' : Gossip) × (lib.publish gossip message.topic message.serialized ≡ ok gossip')
        × (published gossip' ≡ published gossip ++ message ∷ [])) where
  -- The worker publishes what it is asked to, in order.
  run-published :
      (w : Worker PeerId Text Sender Hash Gossip) (messages : List (AnyMessage Text))
      → (gossip : Gossip) × (run w (map (λ action. (lib, inl action)) (map broadcast_send messages))
          ≡ (ok tt, record w { gossip = gossip }))
        × (published gossip ≡ published w.gossip ++ messages)
  unfolding run
  run-published w [] = (w.gossip, refl, sym (append-nil _))
  run-published w (message ∷ messages) =
      let (gossip, p, one) = publishes w.gossip message in
      let w₁ = record w { gossip = gossip } in
      let (last, r, all) = run-published w₁ messages in
      let now : step lib w (inl (broadcast_send message)) ≡ (ok tt, w₁) =
        unfold step in unfold on_action in rw (p, on_action) refl in
      (
        last,
        run_ok lib w (inl (broadcast_send message)) w₁
              (map (λ action. (lib, inl action)) (map broadcast_send messages)) now
            ∙ r,
        all
            ∙ ap (λ l. l ++ messages) one
            ∙ append_assoc (published w.gossip) (message ∷ []) messages,
      )

module _ {ℓ} (GossipError : Type ℓ)
    {Msg Fault Queue PeerId Text Sender Hash Gossip SendError : Type ℓ} ⦃e : Eq Hash⦄
    (serde : Serde Msg Fault Text) (m : Message Msg Text)
    (actions : Actions Queue Text Sender SendError)
    (taken : (queue : Queue) (action : ActionItem Text Sender)
      → (actions.send queue action).0 ≡ ok tt)
    (lib : Libraries Text Sender Hash Gossip SendError GossipError)
    (published : Gossip → List (AnyMessage Text))
    (publishes : (gossip : Gossip) (message : AnyMessage Text)
      → (gossip' : Gossip) × (lib.publish gossip message.topic message.serialized ≡ ok gossip')
        × (published gossip' ≡ published gossip ++ message ∷ [])) where
  -- Over a channel that takes every action, and when gossipsub publishes what it is given: any
  -- sequence of broadcasts answers success for the messages that have a JSON and a codec error for the
  -- others; and when a worker then takes all that the channel holds, which was empty before, its
  -- run succeeds and publishes the JSONs of just those messages, under their topics and in the order
  -- of the broadcasts, and changes nothing else.
  pub run-broadcast_all :
      (queue : Queue) (messages : List Msg) (w : Worker PeerId Text Sender Hash Gossip)
      → actions.queued queue ≡ []
      → let (answers, queue') =
          broadcast_all {GossipError = GossipError} serde m actions queue messages in
        (answers ≡ map (answer_to serde) messages)
        × (gossip : Gossip) × (run w (map (λ action. (lib, inl action)) (actions.queued queue'))
            ≡ (ok tt, record w { gossip = gossip }))
        × (published gossip ≡ published w.gossip ++ encoded serde m messages)
  run-broadcast_all queue messages w empty =
      let (gossip, r, p) = run-published lib published publishes w (encoded serde m messages) in
      let held =
        broadcast_all-queued GossipError serde m actions taken queue messages
        ∙ ap (λ q. q ++ map broadcast_send (encoded serde m messages)) empty in
      (
        broadcast_all-answers GossipError serde m actions taken queue messages,
        gossip,
        ap (λ actions. run w (map (λ action. (lib, inl action)) actions)) held ∙ r,
        p,
      )
