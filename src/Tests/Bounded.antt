-- ===== src/Tests/Bounded.antt =====
-- An instance over sets of futures with a capacity, for blocknet/src/libp2p/peer_info/handler.rs.
use rust_chain.Prelude.{
  ℕ, ◌+◌, ◌≤◌, ◌<◌, true, false, some, none, Option, List, [], ◌∷◌, ◌≡◌, inl, inr, refl, length,
  ltb, arith, if◌then◌else◌,
}
use rust_chain.Net.Types.{Types}
use rust_chain.Net.Handler.{
  Exchange, Runtime, Polled, Success, ready_ok, pending, new_handler, fully_negotiated_inbound,
}
use rust_chain.Net.Handler.Run.{Input, from_connection, polled, run}
use rust_chain.Net.Handler.Bounded.{BoundedSet, run-new_bounded}
use rust_chain.Tests.Handler.{types, infos, done}

abbrev Set : Type 0
Set = ℕ × List (Exchange ℕ ℕ ℕ)

abbrev set_types : Types {0}
set_types = record types { Streams = Set }

abbrev push_set : Set → Exchange ℕ ℕ ℕ → Option Set
push_set (capacity, held) future =
    if ltb (length held) capacity then some (capacity, future ∷ held) else none

abbrev poll_set : Set → Polled (Success ℕ ℕ) ℕ × Set
poll_set (capacity, []) = (pending, (capacity, []))
poll_set (capacity, future ∷ held) = (ready_ok (done future), (capacity, held))

abbrev set_runtime : Runtime set_types
set_runtime = record {
  new_delay = λ n. n;
  reset = λ delay n. n;
  poll_delay = λ n. (false, n);
  new_streams = λ timeout capacity. (capacity, []);
  try_push = push_set;
  poll_streams = poll_set;
  no_protocols = 0;
  on_protocols_change = λ protocols change. (true, change);
}

push_room :
    (set set' : Set) (future : Exchange ℕ ℕ ℕ)
    → push_set set future ≡ some set'
    → (length set.1 < set.0) × (length set'.1 ≡ length set.1 + 1) × (set'.0 ≡ set.0)
push_room (capacity, held) set' future e = ground (arith, e)

poll_fewer : (set : Set) → (length (poll_set set).1.1 ≤ length set.1) × ((poll_set set).1.0 ≡ set.0)
poll_fewer (capacity, []) = (omega arith, refl)
poll_fewer (capacity, future ∷ held) = (omega arith, refl)

set_runtime-BoundedSet : BoundedSet {W = set_types} (λ set. set.1) (λ set. set.0) set_runtime
set_runtime-BoundedSet = record {
  new_lem = λ timeout n. (refl, refl);
  try_push_lem = push_room;
  poll_lem = poll_fewer;
}

abbrev inbound : List (Runtime set_types × Input set_types)
inbound =
    (set_runtime, from_connection (fully_negotiated_inbound (inl 1)))
    ∷ (set_runtime, from_connection (fully_negotiated_inbound (inr 2)))
    ∷ (set_runtime, polled)
    ∷ []

run-new_bounded_example :
    length (run infos (new_handler set_runtime 300 1 [] 7 3 4) inbound).1.active_streams.1 ≤ 10
run-new_bounded_example =
    let law = set_runtime-BoundedSet in
    run-new_bounded {W = set_types} infos (λ set. set.1) (λ set. set.0) set_runtime 300 1 [] 7 3 4
      inbound law (law, (law, (law, tt)))
