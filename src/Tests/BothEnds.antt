-- ===== src/Tests/BothEnds.antt =====
-- An instance over two peers of blocknet/src/libp2p/peer_info: a stream that a peer with the info 7
-- has written to, and that is read at its far end.
use rust_chain.Prelude.{
  ℕ, zero, suc, true, false, List, [], ◌∷◌, ◌++◌, ◌≡◌, refl, some, inl, All, All-append, Result, ok,
  err, diverged, arith,
}
use rust_chain.Net.Types.{Types}
use rust_chain.Net.Protocol.{Info, UpgradeError}
use rust_chain.Net.Codec.{Codec}
use rust_chain.Net.Codec.Json.{Io, json, read, write, take}
use rust_chain.Net.Handler.{
  outbound_request, notify_behaviour, identified, poll, poll_idle, on_connection_event,
  on_fully_negotiated_outbound, try_push, settle_stream, handle_incoming_info, Runtime, Exchange,
  complete, Success, Polled, ready_ok, ready_err, pending, new_handler, fully_negotiated_outbound,
}
use rust_chain.Net.Handler.Run.{Input, from_connection, polled, handle, run}
use rust_chain.Net.Handler.Provenance.{FuturesSet}
use rust_chain.Net.Handler.BothEnds.{json_types, IsFarEnd, IsTheirs, run-new-IsTheirs}
use rust_chain.Tests.Codec.{serde}
use rust_chain.Tests.Handler.{types}

data Pipe : Type 0 where
  near_end : List ℕ → Pipe
  far_end : Pipe

abbrev pipe_pending : Pipe → List ℕ
pipe_pending (near_end bytes) = []
pipe_pending far_end = 7 ∷ 0 ∷ []

abbrev pipe_written : Pipe → List ℕ
pipe_written (near_end bytes) = bytes
pipe_written far_end = []

abbrev pipe_write : Pipe → List ℕ → Result (Unit {0}) ℕ × Pipe
pipe_write (near_end bytes) more = (ok tt, near_end (bytes ++ more))
pipe_write far_end more = (err 1, far_end)

abbrev pipe_read : ℕ → Pipe → Result (List ℕ) ℕ
pipe_read n s = ok (take n (pipe_pending s))

pipe_read_lem :
    (n : ℕ) (s : Pipe) (bytes : List ℕ) → pipe_read n s ≡ ok bytes → bytes ≡ take n (pipe_pending s)
pipe_read_lem n s bytes r = ground (arith, r)

pipe_write_lem :
    (s : Pipe) (bytes : List ℕ)
    → (pipe_write s bytes).0 ≡ ok tt
    → pipe_written (pipe_write s bytes).1 ≡ pipe_written s ++ bytes
pipe_write_lem (near_end old) bytes o = refl
pipe_write_lem far_end bytes o = absurd (ground (arith, o))

abbrev pipe : Io Pipe ℕ
pipe = record {
  pending = pipe_pending;
  written = pipe_written;
  read_to_end = pipe_read;
  write_all = pipe_write;
  read_to_end_lem = pipe_read_lem;
  write_all_lem = pipe_write_lem;
}

every_read-IsFarEnd :
    (far : Pipe) (i : ℕ)
    → read {AddressError = ℕ} {KeyError = ℕ} serde pipe far ≡ ok i
    → IsFarEnd ℕ ℕ serde pipe 7 far
unfolding read write
every_read-IsFarEnd far_end i r = (near_end [], refl, refl, refl)
every_read-IsFarEnd (near_end bytes) i r = absurd (ground (arith, r))

abbrev Held : Type 0
Held = List (Exchange ℕ ℕ Pipe)

abbrev pipe_types : Types {0}
pipe_types = record types { Stream = Pipe; Streams = Held }

abbrev Failure : Type 0
Failure = UpgradeError ℕ ℕ ℕ ℕ

abbrev pipe_codec : Codec ℕ ℕ Pipe Failure
pipe_codec = json serde serde pipe

abbrev polled_outcome : Result (Success ℕ ℕ) Failure → Polled (Success ℕ ℕ) Failure
polled_outcome (ok out) = ready_ok out
polled_outcome (err e) = ready_err e
polled_outcome diverged = pending

abbrev poll_next : Held → Polled (Success ℕ ℕ) Failure × Held
poll_next [] = (pending, [])
poll_next (future ∷ set) = (polled_outcome (complete pipe_codec future), set)

abbrev pipe_runtime : Runtime (json_types pipe_types ℕ ℕ)
pipe_runtime = record {
  new_delay = λ n. n;
  reset = λ delay n. n;
  poll_delay = λ delay. (elim delay [ zero ↦ true | suc n ↦ false ], delay);
  new_streams = λ timeout capacity. [];
  try_push = λ set future. some (set ++ future ∷ []);
  poll_streams = poll_next;
  no_protocols = 0;
  on_protocols_change = λ protocols change. (true, change);
}

push_held :
    (set set' : Held) (future : Exchange ℕ ℕ Pipe)
    → pipe_runtime.try_push set future ≡ some set'
    → (P : Exchange ℕ ℕ Pipe → Type 0) → P future
    → All P set
    → All P set'
push_held set set' future e P p h = ground (arith, e, All-append P set (future ∷ []) h (p, tt))

poll_next_held : (set : Held) (P : Exchange ℕ ℕ Pipe → Type 0) → All P set → All P (poll_next set).1
poll_next_held [] P h = tt
poll_next_held (future ∷ set) P h = h.1

ready_outcome :
    (r : Result (Success ℕ ℕ) Failure) (out : Success ℕ ℕ)
    → polled_outcome r ≡ ready_ok out
    → r ≡ ok out
ready_outcome (ok o) out h = ground (arith, h)
ready_outcome (err e) out h = absurd (ground (arith, h))
ready_outcome diverged out h = absurd (ground (arith, h))

poll_next_ready :
    (set : Held) (P : Exchange ℕ ℕ Pipe → Type 0) (out : Success ℕ ℕ)
    → All P set
    → (poll_next set).0 ≡ ready_ok out
    → (future : Exchange ℕ ℕ Pipe) × P future × (complete pipe_codec future ≡ ok out)
poll_next_ready [] P out h r = absurd (ground (arith, r))
poll_next_ready (future ∷ set) P out h r =
    (future, h.0, ready_outcome (complete pipe_codec future) out r)

pipe-FuturesSet : FuturesSet {W = json_types pipe_types ℕ ℕ} pipe_codec (λ set. set) pipe_runtime
pipe-FuturesSet = record {
  new_lem = λ timeout capacity. refl;
  try_push_lem = push_held;
  poll_lem = poll_next_held;
  ready_lem = poll_next_ready;
}

-- A push replaces the info.
abbrev replaced : Info ℕ ℕ
replaced = record { into_push = λ n. n; merge = λ old push. push }

-- The handler asks for a stream, gets one, and reads it.
abbrev reading_calls :
    List (Runtime (json_types pipe_types ℕ ℕ) × Input (json_types pipe_types ℕ ℕ))
reading_calls =
    (pipe_runtime, polled)
    ∷ (pipe_runtime, from_connection (fully_negotiated_outbound (inl far_end)))
    ∷ (pipe_runtime, polled)
    ∷ []

run-new-IsTheirs_example :
    All
      (IsTheirs pipe_types ℕ ℕ serde serde pipe replaced 7)
      (run {W = json_types pipe_types ℕ ℕ} replaced
        (new_handler pipe_runtime 300 1 [] 5 3 4)
        reading_calls).0
run-new-IsTheirs_example =
    let law = pipe-FuturesSet in
    run-new-IsTheirs pipe_types ℕ ℕ serde serde pipe replaced 7 (7 ∷ 0 ∷ []) (7 ∷ 0 ∷ [])
      (refl, refl, omega arith) (refl, refl, omega arith) (λ i. refl) every_read-IsFarEnd
      every_read-IsFarEnd (λ set. set) pipe_runtime 5 300 1 [] 3 4 reading_calls law
      (law, (law, (law, tt)))

-- What it tells there.
tells_seven :
    (run {W = json_types pipe_types ℕ ℕ} replaced
      (new_handler pipe_runtime 300 1 [] 5 3 4)
      reading_calls).0
    ≡ outbound_request (inl 3) ∷ notify_behaviour (identified 7) ∷ []
unfolding run handle new_handler poll poll_idle on_connection_event on_fully_negotiated_outbound
    try_push settle_stream handle_incoming_info complete read
tells_seven = refl
