-- ===== src/Tests/Provenance.antt =====
-- An instance over the sets of futures of blocknet/src/libp2p/peer_info/handler.rs: a stream is the
-- number that is read from it.
use rust_chain.Prelude.{ℕ, some, List, [], ◌∷◌, ◌≡◌, refl, All, All-append, ok, arith}
use rust_chain.Net.Codec.{Codec}
use rust_chain.Net.Handler.{
  Exchange, write_out, read_in, read_push_in, write_push_out, complete, Success, ready_ok,
  new_handler,
}
use rust_chain.Net.Handler.Run.{run}
use rust_chain.Net.Handler.Provenance.{FuturesSet, IsTrue}
use rust_chain.Net.Handler.Honest.{run-new-IsTrue}
use rust_chain.Tests.Handler.{types, runtime, infos, done, poll_first, calls}

abbrev codec : Codec ℕ ℕ ℕ ℕ
codec = record {
  read_info = λ stream. ok stream;
  read_push_info = λ stream. ok stream;
  write_info = λ stream info. (ok tt, stream);
  write_push_info = λ stream push. (ok tt, stream);
}

complete-done : (future : Exchange ℕ ℕ ℕ) → complete codec future ≡ ok (done future)
unfolding complete
complete-done (write_out stream info) = refl
complete-done (read_push_in stream) = refl
complete-done (read_in stream) = refl
complete-done (write_push_out stream push) = refl

poll_first_held :
    (set : List (Exchange ℕ ℕ ℕ)) (P : Exchange ℕ ℕ ℕ → Type 0)
    → All P set
    → All P (poll_first set).1
poll_first_held [] P h = tt
poll_first_held (future ∷ set) P h = h.1

poll_first_ready :
    (set : List (Exchange ℕ ℕ ℕ)) (P : Exchange ℕ ℕ ℕ → Type 0) (out : Success ℕ ℕ)
    → All P set
    → (poll_first set).0 ≡ ready_ok out
    → (future : Exchange ℕ ℕ ℕ) × P future × (complete codec future ≡ ok out)
poll_first_ready [] P out h r = absurd (ground (arith, r))
poll_first_ready (future ∷ set) P out h r = (future, h.0, ground (arith, r, complete-done future))

push_held :
    (set set' : List (Exchange ℕ ℕ ℕ)) (future : Exchange ℕ ℕ ℕ)
    → runtime.try_push set future ≡ some set'
    → (P : Exchange ℕ ℕ ℕ → Type 0) → P future
    → All P set
    → All P set'
push_held set set' future e P p h = ground (arith, e, All-append P set (future ∷ []) h (p, tt))

runtime-FuturesSet : FuturesSet {W = types} codec (λ set. set) runtime
runtime-FuturesSet = record {
  new_lem = λ timeout capacity. refl;
  try_push_lem = push_held;
  poll_lem = poll_first_held;
  ready_lem = poll_first_ready;
}

run-new-IsTrue_example :
    All (IsTrue types infos codec 7) (run infos (new_handler runtime 300 1 [] 7 3 4) calls).0
run-new-IsTrue_example =
    let law = runtime-FuturesSet in
    run-new-IsTrue types infos codec 7 (λ set. set) runtime 300 1 [] 3 4 calls law
      (law, (law, (law, (law, (law, (law, (law, tt)))))))
