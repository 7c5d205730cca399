-- ===== src/Tests/Worker.antt =====
-- Instances over blocknet/src/libp2p/mod.rs. Channel 0 is closed, and every other channel is open.
use rust_chain.Prelude.{
  ℕ, ◌+◌, ◌++◌, Bool, true, some, [], ◌∷◌, ◌≡◌, refl, inl, inr, filter, map, All, Result, ok, err,
  ltb, arith, if◌then◌else◌, false, List,
}
use rust_chain.Prelude.Eq.{nat_eq, ◌=?◌}
use rust_chain.Prelude.HashMap
use rust_chain.Net.Worker.{broadcast_listen, message, Libraries, Worker, run, step, channel_send}
use rust_chain.Net.Worker.{ActionItem}
use rust_chain.Net.Service.{Message}
use rust_chain.Net.Worker.Service.{Actions}
use rust_chain.Net.Worker.Listeners.{listeners, listens, listeners-run}
use rust_chain.Net.Worker.Silence.{run_silent, message_result}

abbrev pub is_closed : ℕ → Bool
is_closed s = ltb s 1

abbrev pub send : ℕ → Result (Unit {0}) ℕ
send s = if ltb s 1 then err 7 else ok tt

pub send_closed : (s : ℕ) → is_closed s ≡ true → (e : ℕ) × (send s ≡ err e)
send_closed s h = (7, ground arith)

abbrev pub libraries : Libraries ℕ ℕ ℕ ℕ ℕ ℕ
libraries = record {
  is_closed = is_closed;
  send = send;
  send_closed = send_closed;
  hash = λ topic. topic + 100;
  publish = λ gossip topic bytes. ok (gossip + 1);
  subscribe = λ gossip topic. ok (gossip + 1);
}

accepted : (gossip topic : ℕ) → (gossip' : ℕ) × (libraries.subscribe gossip topic ≡ ok gossip')
accepted gossip topic = (gossip + 1, refl)

abbrev worker : Worker ℕ ℕ ℕ ℕ ℕ
worker = record {
  gossip = 0;
  broadcast_listen_senders = (105, (5, 1 ∷ 2 ∷ [])) ∷ [];
  delivered = [];
}

run_silent_example :
    (run worker (
      (libraries, inl (broadcast_listen 3 5))
      ∷ (libraries, inr (message (some 9) 105 (1 ∷ [])))
      ∷ [])).1.delivered
    ≡ []
run_silent_example = run_silent worker (
    (libraries, inl (broadcast_listen 3 5)) ∷ (libraries, inr (message (some 9) 105 (1 ∷ []))) ∷ [])

message_result_example :
    let (result, w') = step libraries worker (inr (message (some 9) 105 (1 ∷ []))) in
    (All (λ s. is_closed s ≡ false) (1 ∷ 2 ∷ [])
      → (result ≡ ok tt) × (HashMap.get 105 w'.broadcast_listen_senders ≡ some (5, [])))
    × ((s : ℕ) (rest : List ℕ)
        → filter is_closed (1 ∷ 2 ∷ []) ≡ s ∷ rest
        → (error : ℕ) × (result ≡ err (channel_send error)))
unfolding HashMap.get
message_result_example = message_result libraries worker (some 9) 105 (1 ∷ []) 5 (1 ∷ 2 ∷ []) refl

abbrev pub actions : Actions (List (ActionItem ℕ ℕ)) ℕ ℕ ℕ
actions = record {
  queued = λ queue. queue;
  send = λ queue action. (ok tt, queue ++ action ∷ []);
  send_lem = λ queue action o. refl;
}

abbrev pub numbered : Message ℕ ℕ
numbered = record { topic = λ message. message + 1 }

listeners-run_example :
    let (result, w') = run worker (listens libraries accepted ((5, 3) ∷ (6, 4) ∷ (5, 4) ∷ [])) in
    (result ≡ ok tt)
    × (listeners 105 w'.broadcast_listen_senders
        ≡ listeners 105 worker.broadcast_listen_senders
          ++ map
              (λ (call : ℕ × ℕ). call.1)
              (filter
                (λ (call : ℕ × ℕ). libraries.hash call.0 =? 105)
                ((5, 3) ∷ (6, 4) ∷ (5, 4) ∷ [])))
listeners-run_example = listeners-run libraries accepted worker ((5, 3) ∷ (6, 4) ∷ (5, 4) ∷ []) 105
