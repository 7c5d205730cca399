-- ===== src/Net/Behaviour/Events.antt =====
-- The queue of events of `Behaviour` (blocknet/src/libp2p/peer_info/behaviour.rs).
use rust_chain.Prelude.{
  ℕ, zero, suc, List, [], ◌∷◌, ◌++◌, ◌≡◌, refl, sym, fun_ext, ◌∙◌, ap, filter, map, none, some,
  Bool-cases, inl, inr,
}
use mathlib.Core.List.{append_assoc, append-nil}
use rust_chain.Prelude.Eq.{Eq}
use rust_chain.Net.Types.{Types}
use rust_chain.Net.Handler.{push_info}
use rust_chain.Net.Behaviour.{Behaviour, ToSwarm, notify_handler, push, poll, is_connected}

module _ {ℓ} {W : Types {ℓ}} where
  -- What a number of polls returns, and what they leave.
  unfoldable pub poll_times : ℕ → Behaviour W → List (ToSwarm W) × Behaviour W
  unfolding poll
  poll_times zero b = ([], b)
  poll_times (suc n) b =
      let (events, rest) = poll_times n (poll b).1 in
      elim (poll b).0 [ some event ↦ (event ∷ events, rest) | none ↦ (events, rest) ]

  poll_nothing : (b : Behaviour W) → b.events ≡ [] → poll b ≡ (none, b)
  unfolding poll
  poll_nothing b h = rw h

  poll_first :
      (b : Behaviour W) (event : ToSwarm W) (events : List (ToSwarm W))
      → b.events ≡ event ∷ events
      → poll b ≡ (some event, record b { events = events })
  unfolding poll
  poll_first b event events h = rw h

  poll_times_queue :
      (n : ℕ) (b : Behaviour W) (events : List (ToSwarm W))
      → b.events ≡ events
      → (poll_times n b).0 ++ (poll_times n b).1.events ≡ events
  unfolding poll_times
  poll_times_queue zero b events h = h
  poll_times_queue (suc n) b [] h =
      rw (poll_times, poll_nothing b h, poll_nothing b h) (poll_times_queue n b [] h)
  poll_times_queue (suc n) b (event ∷ events) h =
      rw (poll_times, poll_first b event events h, poll_first b event events h)
        (ap (λ es. event ∷ es) (poll_times_queue n (record b { events = events }) events refl))

  -- However often the behaviour is polled, what the polls return, in their order, and then what is
  -- still queued is the queue: nothing is lost, repeated or overtaken.
  pub poll_times_lem :
      (n : ℕ) (b : Behaviour W) → (poll_times n b).0 ++ (poll_times n b).1.events ≡ b.events
  poll_times_lem n b = poll_times_queue n b b.events refl

  module _ ⦃eq_peer : Eq W.PeerId⦄ ⦃eq_connection : Eq W.ConnectionId⦄ where
    is_connected_queue :
        (b : Behaviour W) (events : List (ToSwarm W))
        → is_connected (record b { events = events }) ≡ is_connected b
    unfolding is_connected
    is_connected_queue b events = fun_ext (λ p. refl)

    -- push queues one notification for each of the given peers that is connected, in the order
    -- given, and changes nothing but the queue.
    pub push_lem :
        (b : Behaviour W) (peers : List W.PeerId)
        → push b peers ≡ record b {
          events =
              b.events
              ++ map (λ p. notify_handler p none push_info) (filter (is_connected b) peers);
        }
    unfolding push
    push_lem b [] = sym (ap (λ es. record b { events = es }) (append-nil b.events))
    push_lem b (peer ∷ peers) = elim (Bool-cases (is_connected b peer)) [
      | inl h ↦
          let first = notify_handler peer none push_info ∷ [] in
          let queued = record b { events = b.events ++ first } in
          rw (h, filter, push)
            (push_lem queued peers
              ∙ ap
                  (λ test. record b {
                    events =
                        (b.events ++ first)
                        ++ map (λ p. notify_handler p none push_info) (filter test peers);
                  })
                  (is_connected_queue b (b.events ++ first))
              ∙ ap (λ es. record b { events = es }) (append_assoc b.events first _))
      | inr h ↦ rw (h, filter, push) (push_lem b peers)
    ]
