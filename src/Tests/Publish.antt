-- ===== src/Tests/Publish.antt =====
-- An instance over the broadcasts of blocknet/src/libp2p/mod.rs: what gossipsub has published is a
-- list, and 13 has no JSON.
use rust_chain.Prelude.{ℕ, ◌++◌, ◌==◌, List, [], ◌∷◌, ◌≡◌, refl, inl, map, ok, err, if◌then◌else◌}
use rust_chain.Prelude.Eq.{nat_eq}
use rust_chain.Net.Codec.Json.{Serde}
use rust_chain.Net.Worker.{AnyMessage, Libraries, Worker, run, codec}
use rust_chain.Net.Worker.Service.Publish.{broadcast_all, encoded, answer_to, run-broadcast_all}
use rust_chain.Tests.Worker.{libraries, send_closed, actions, numbered}

abbrev picky : Serde ℕ ℕ ℕ
picky = record {
  to_vec = λ message. if message == 13 then err 1 else ok (message ∷ 0 ∷ []);
  from_slice = λ bytes. err 4;
  format = λ fault. fault;
}

abbrev publishing : Libraries ℕ ℕ ℕ (List (AnyMessage ℕ)) ℕ ℕ
publishing = record {
  is_closed = libraries.is_closed;
  send = libraries.send;
  send_closed = send_closed;
  hash = libraries.hash;
  publish = λ gossip topic bytes. ok (gossip ++ record { topic = topic; serialized = bytes } ∷ []);
  subscribe = λ gossip topic. ok gossip;
}

publishes :
    (gossip : List (AnyMessage ℕ)) (message : AnyMessage ℕ)
    → (gossip' : List (AnyMessage ℕ)) × (publishing.publish gossip message.topic message.serialized
        ≡ ok gossip')
      × (gossip' ≡ gossip ++ message ∷ [])
publishes gossip message = (gossip ++ message ∷ [], refl, refl)

abbrev quiet : Worker ℕ ℕ ℕ ℕ (List (AnyMessage ℕ))
quiet = record { gossip = []; broadcast_listen_senders = []; delivered = [] }

run-broadcast_all_example :
    let (answers, queue) =
      broadcast_all {GossipError = ℕ} picky numbered actions [] (4 ∷ 13 ∷ 6 ∷ []) in
    (answers ≡ map (answer_to picky) (4 ∷ 13 ∷ 6 ∷ []))
    × (gossip : List (AnyMessage ℕ)) × (run quiet (map (λ action. (publishing, inl action)) queue)
        ≡ (ok tt, record quiet { gossip = gossip }))
    × (gossip ≡ [] ++ encoded picky numbered (4 ∷ 13 ∷ 6 ∷ []))
run-broadcast_all_example =
    run-broadcast_all ℕ picky numbered actions (λ queue action. refl) publishing (λ gossip. gossip)
      publishes [] (4 ∷ 13 ∷ 6 ∷ []) quiet refl

-- What is answered and published there.
published_there :
    (map (answer_to {SendError = ℕ} {GossipError = ℕ} picky) (4 ∷ 13 ∷ 6 ∷ [])
      ≡ ok tt ∷ err (codec 1) ∷ ok tt ∷ [])
    × (encoded picky numbered (4 ∷ 13 ∷ 6 ∷ [])
        ≡ record { topic = 5; serialized = 4 ∷ 0 ∷ [] }
          ∷ record { topic = 7; serialized = 6 ∷ 0 ∷ [] }
          ∷ [])
unfolding encoded
published_there = (refl, refl)
