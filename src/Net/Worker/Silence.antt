-- ===== src/Net/Worker/Silence.antt =====
-- What listeners get from `Worker::step` (blocknet/src/libp2p/mod.rs).
use rust_chain.Prelude.{
  ℕ, Bool, true, false, Option, some, List, [], ◌∷◌, ◌≡◌, refl, ◌⊎◌, inl, inr, filter, All, ok, err,
  arith, Option-cases, ◌∙◌, subst, ap,
}
use rust_chain.Prelude.Eq.{Eq}
use rust_chain.Prelude.HashMap
use rust_chain.Net.Worker.{
  channel_send, Delivery, ActionItem, broadcast_send, broadcast_listen, SwarmEvent, message, other,
  Libraries, Worker, delivery, send_all, retain, deliver, on_event, on_action, step, run,
}

-- What passes a filter passes its test.
All-filter-true {ℓ} :
    {A : Type ℓ} (p : A → Bool) (xs : List A) → All (λ x. p x ≡ true) (filter p xs)
All-filter-true p [] = tt
All-filter-true p (x ∷ xs) = ground (arith, All-filter-true p xs)

filter-none {ℓ} :
    {A : Type ℓ} (p : A → Bool) (xs : List A) → All (λ x. p x ≡ false) xs → filter p xs ≡ []
filter-none p [] h = refl
filter-none p (x ∷ xs) h = ground (arith, filter-none p xs h.1)

module _ {ℓ} {PeerId Text Sender Hash Gossip SendError GossipError : Type ℓ} ⦃e : Eq Hash⦄
    (lib : Libraries Text Sender Hash Gossip SendError GossipError) where
  -- Sends on closed channels deliver nothing: there is none, or the first fails.
  send_all_closed :
      (item : Delivery PeerId Text) (senders : List Sender)
      (log : List (Sender × Delivery PeerId Text))
      → All (λ s. lib.is_closed s ≡ true) senders
      → (send_all lib item senders log).1 ≡ log
  unfolding send_all
  send_all_closed item [] log h = refl
  send_all_closed item (s ∷ senders) log h =
      let (error, failed) = lib.send_closed s h.0 in rw (failed, send_all)

  on_event_silent :
      (w : Worker PeerId Text Sender Hash Gossip) (event : SwarmEvent PeerId Hash)
      → (on_event lib w event).1.delivered ≡ w.delivered
  unfolding on_event retain
  on_event_silent w (message source topic_hash bytes) =
      elim (Option-cases (HashMap.get topic_hash w.broadcast_listen_senders)) [
        | inl n ↦ rw (n, on_event)
        | inr ((topic, senders), h) ↦
            rw (h, on_event)
              (send_all_closed _ (filter lib.is_closed senders) w.delivered
                (All-filter-true lib.is_closed senders))
      ]
  on_event_silent w other = refl

  on_action_silent :
      (w : Worker PeerId Text Sender Hash Gossip) (action : ActionItem Text Sender)
      → (on_action lib w action).1.delivered ≡ w.delivered
  unfolding on_action
  on_action_silent w (broadcast_send m) = ground arith
  on_action_silent w (broadcast_listen sender topic) = ground arith

  pub step_silent :
      (w : Worker PeerId Text Sender Hash Gossip)
      (input : ActionItem Text Sender ⊎ SwarmEvent PeerId Hash)
      → (step lib w input).1.delivered ≡ w.delivered
  unfolding step
  step_silent w (inl action) = on_action_silent w action
  step_silent w (inr event) = on_event_silent w event

  -- The first send fails when it finds a closed channel.
  send_all_fails :
      (item : Delivery PeerId Text) (s : Sender) (rest : List Sender)
      (log : List (Sender × Delivery PeerId Text))
      → lib.is_closed s ≡ true
      → (error : SendError) × ((send_all lib item (s ∷ rest) log).0 ≡ err error)
  unfolding send_all
  send_all_fails item s rest log c =
      let (error, failed) = lib.send_closed s c in (error, rw (failed, send_all))

  -- A message of a topic whose senders are all open empties the topic's list of senders and is
  -- answered with ok; one that finds a closed sender ends the step with the channel's error.
  pub message_result :
      (w : Worker PeerId Text Sender Hash Gossip) (source : Option PeerId) (topic_hash : Hash)
      (bytes : List ℕ) (topic : Text) (senders : List Sender)
      → HashMap.get topic_hash w.broadcast_listen_senders ≡ some (topic, senders)
      → let (result, w') = step lib w (inr (message source topic_hash bytes)) in
        (All (λ s. lib.is_closed s ≡ false) senders
          → (result ≡ ok tt)
            × (HashMap.get topic_hash w'.broadcast_listen_senders ≡ some (topic, [])))
        × ((s : Sender) (rest : List Sender)
            → filter lib.is_closed senders ≡ s ∷ rest
            → (error : SendError) × (result ≡ err (channel_send error)))
  unfolding step on_event deliver retain send_all
  message_result w source topic_hash bytes topic senders h =
      rw (h, step, on_event)
        (
          λ open_. (
            rw (filter-none lib.is_closed senders open_, send_all),
            HashMap.get-modify_self topic_hash (retain lib) w.broadcast_listen_senders h
                ∙ ap (λ xs. some (topic, xs)) (filter-none lib.is_closed senders open_),
          ),
          λ s rest f.
              let (error, failed) =
                send_all_fails (delivery lib source (record { topic = topic; serialized = bytes }))
                  s rest w.delivered
                  (subst (All (λ x. lib.is_closed x ≡ true)) f
                    (All-filter-true lib.is_closed senders)).0 in
              (error, rw (f, failed)),
        )

-- Whatever actions and events arrive, and whichever channels are closed in the meantime, the worker
-- never delivers a message or an error to a listener.
pub run_silent {ℓ} :
    {PeerId Text Sender Hash Gossip SendError GossipError : Type ℓ} ⦃e : Eq Hash⦄
    (w : Worker PeerId Text Sender Hash Gossip)
    (inputs : List (
      Libraries Text Sender Hash Gossip SendError GossipError
      × (ActionItem Text Sender ⊎ SwarmEvent PeerId Hash)))
    → (run w inputs).1.delivered ≡ w.delivered
unfolding run
run_silent w [] = refl
run_silent w ((lib, input) ∷ inputs) =
    ground (arith, step_silent lib w input, run_silent (step lib w input).1 inputs)
