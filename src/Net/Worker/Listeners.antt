-- ===== src/Net/Worker/Listeners.antt =====
-- Whom `Worker::step` (blocknet/src/libp2p/mod.rs) files as the listeners of a topic.
use rust_chain.Prelude.{
  true, false, some, none, List, [], ◌∷◌, ◌++◌, ◌≡◌, refl, ◌⊎◌, inl, filter, map, ok, arith, ◌∙◌,
  ap, sym,
}
use mathlib.Core.Option
use mathlib.Core.List.{append_assoc, append-nil}
use rust_chain.Prelude.Eq.{Eq, ◌=?◌}
use rust_chain.Prelude.HashMap
use rust_chain.Prelude.HashMap.{HashMap}
use rust_chain.Net.Worker.{
  ActionItem, broadcast_listen, SwarmEvent, Libraries, Worker, push_sender, on_action, step, run,
}

module _ {ℓ} {Text Sender Hash : Type ℓ} ⦃e : Eq Hash⦄ where
  -- The listeners under a key.
  abbrev pub listeners : Hash → HashMap Hash (Text × List Sender) → List Sender
  listeners k senders = elim (HashMap.get k senders) [ some entry ↦ entry.1 | none ↦ [] ]

  listeners-push_sender :
      (k topic_hash : Hash) (topic : Text) (sender : Sender)
      (senders : HashMap Hash (Text × List Sender))
      → listeners k (push_sender topic_hash topic sender senders) ≡ elim (topic_hash =? k) [
        | true ↦ listeners k senders ++ sender ∷ []
        | false ↦ listeners k senders
      ]
  unfolding push_sender
  listeners-push_sender k topic_hash topic sender senders =
      let (name, old) = Option.get_or (HashMap.get topic_hash senders) (topic, []) in
      ground (
        arith,
        e.beq_iff topic_hash k,
        HashMap.get-insert topic_hash k (name, old ++ sender ∷ []) senders,
      )

module _ {ℓ} {PeerId Text Sender Hash Gossip SendError GossipError : Type ℓ} ⦃e : Eq Hash⦄
    (lib : Libraries Text Sender Hash Gossip SendError GossipError) where
  pub run_ok :
      (w : Worker PeerId Text Sender Hash Gossip)
      (input : ActionItem Text Sender ⊎ SwarmEvent PeerId Hash)
      (w' : Worker PeerId Text Sender Hash Gossip)
      (inputs : List (
        Libraries Text Sender Hash Gossip SendError GossipError
        × (ActionItem Text Sender ⊎ SwarmEvent PeerId Hash)))
      → step lib w input ≡ (ok tt, w')
      → run w ((lib, input) ∷ inputs) ≡ run w' inputs
  unfolding run
  run_ok w input w' inputs s = rw (ap (λ r. r.0) s, run) (ap (λ r. run r.1 inputs) s)

module _ {ℓ} {PeerId Text Sender Hash Gossip SendError GossipError : Type ℓ} ⦃e : Eq Hash⦄
    (lib : Libraries Text Sender Hash Gossip SendError GossipError)
    (accepted : (gossip : Gossip) (topic : Text)
      → (gossip' : Gossip) × (lib.subscribe gossip topic ≡ ok gossip')) where
  -- The actions by which senders listen to topics.
  abbrev pub listens :
      List (Text × Sender)
      → List (
          Libraries Text Sender Hash Gossip SendError GossipError
          × (ActionItem Text Sender ⊎ SwarmEvent PeerId Hash))
  listens calls = map (λ call. (lib, inl (broadcast_listen call.1 call.0))) calls

  step_listen :
      (w : Worker PeerId Text Sender Hash Gossip) (topic : Text) (sender : Sender)
      → (gossip : Gossip) × (step lib w (inl (broadcast_listen sender topic)) ≡ (
        ok tt,
        record w {
          gossip = gossip;
          broadcast_listen_senders =
              push_sender (lib.hash topic) topic sender w.broadcast_listen_senders;
        },
      ))
  unfolding step on_action
  step_listen w topic sender =
      let (gossip, a) = accepted w.gossip topic in (gossip, rw (a, on_action))

  -- When gossipsub accepts every subscription, any sequence of listens succeeds, and adds to the
  -- listeners under each hash the senders whose topics have that hash, in the order of the calls.
  pub listeners-run :
      (w : Worker PeerId Text Sender Hash Gossip) (calls : List (Text × Sender)) (k : Hash)
      → let (result, w') = run w (listens calls) in
        (result ≡ ok tt)
        × (listeners k w'.broadcast_listen_senders
            ≡ listeners k w.broadcast_listen_senders
              ++ map (λ call. call.1) (filter (λ call. lib.hash call.0 =? k) calls))
  unfolding run
  listeners-run w [] k = (refl, sym (append-nil _))
  listeners-run w ((topic, sender) ∷ calls) k =
      let (gossip, s) = step_listen w topic sender in
      let w₁ = record w {
        gossip = gossip;
        broadcast_listen_senders =
            push_sender (lib.hash topic) topic sender w.broadcast_listen_senders;
      } in
      let later = listeners-run w₁ calls k in
      let now = run_ok lib w (inl (broadcast_listen sender topic)) w₁ (listens calls) s in
      (
        ap (λ r. r.0) now ∙ later.0,
        ap (λ r. listeners k r.1.broadcast_listen_senders) now
            ∙ later.1
            ∙ ground (
              arith,
              listeners-push_sender k (lib.hash topic) topic sender w.broadcast_listen_senders,
              append_assoc (listeners k w.broadcast_listen_senders) (sender ∷ [])
                  (map (λ call. call.1) (filter (λ call. lib.hash call.0 =? k) calls)),
            ),
      )
