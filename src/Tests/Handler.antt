-- ===== src/Tests/Handler.antt =====
-- Instances over blocknet/src/libp2p/peer_info/handler.rs: every name is a number, and the futures
-- stand in a list, of which a poll finds the first done.
use rust_chain.Prelude.{
  ℕ, ◌+◌, Bool, true, false, some, none, List, [], ◌∷◌, ◌++◌, ◌≡◌, inl, inr, ◌↔◌, refl, All, ltb,
  length, if◌then◌else◌,
}
use rust_chain.Net.Types.{Types}
use rust_chain.Net.Protocol.{Info}
use rust_chain.Net.Handler.{
  Runtime, Handler, Exchange, write_out, read_in, read_push_in, write_push_out, Success,
  sent_identify, received_identify, received_identify_push, sent_identify_push, Polled, ready_ok,
  pending, new_handler, outbound_request, notify_behaviour, fully_negotiated_outbound,
  fully_negotiated_inbound, local_protocols_change, identified, poll,
  max_concurrent_streams_per_connection,
}
use rust_chain.Net.Handler.Run.{Input, from_connection, polled, run}
use rust_chain.Net.Handler.Poll.{poll-none_iff, run-polls_due, IsIdle, polls}
use rust_chain.Net.Handler.Remote.{last_identified, run-new_remote_info}
use rust_chain.Net.Handler.Pushes.{NotPush, run-new-NotPush}

-- The connections' streams are the numbers that are read from them.
abbrev pub types : Types {0}
types = record {
  PeerId = ℕ;
  Address = ℕ;
  Protocol = ℕ;
  TInfo = ℕ;
  TPush = ℕ;
  E = ℕ;
  IoError = ℕ;
  Stream = ℕ;
  Delay = ℕ;
  Streams = List (Exchange ℕ ℕ ℕ);
  Supported = ℕ;
  Change = ℕ;
  Text = ℕ;
  Key = ℕ;
  ConnectionId = ℕ;
  SwarmChange = ℕ;
  Listen = ℕ;
  External = ℕ;
}

abbrev pub done : Exchange ℕ ℕ ℕ → Success ℕ ℕ
done (write_out stream info) = sent_identify
done (read_push_in stream) = received_identify_push stream
done (read_in stream) = received_identify stream
done (write_push_out stream push) = sent_identify_push push

abbrev pub poll_first : List (Exchange ℕ ℕ ℕ) → Polled (Success ℕ ℕ) ℕ × List (Exchange ℕ ℕ ℕ)
poll_first [] = (pending, [])
poll_first (future ∷ futures) = (ready_ok (done future), futures)

-- The timer is due at 0, and ticks otherwise.
abbrev tick : ℕ → Bool × ℕ
tick delay = if ltb delay 1 then (true, delay) else (false, delay)

abbrev pub runtime : Runtime types
runtime = record {
  new_delay = λ n. n;
  reset = λ delay n. n;
  poll_delay = tick;
  new_streams = λ timeout capacity. [];
  try_push = λ futures future.
      if ltb (length futures) max_concurrent_streams_per_connection
      then some (futures ++ future ∷ [])
      else none;
  poll_streams = poll_first;
  no_protocols = 0;
  on_protocols_change = λ protocols change. (true, change);
}

abbrev pub infos : Info ℕ ℕ
infos = record { into_push = λ n. n; merge = λ old push. old + push }

-- The info 40 is read, then 2 is pushed.
abbrev pub calls : List (Runtime types × Input types)
calls =
    (runtime, polled)
    ∷ (runtime, from_connection (fully_negotiated_outbound (inl 40)))
    ∷ (runtime, polled)
    ∷ (runtime, from_connection (fully_negotiated_inbound (inr 2)))
    ∷ (runtime, polled)
    ∷ (runtime, from_connection (local_protocols_change 1))
    ∷ (runtime, polled)
    ∷ []

abbrev handler : Handler types
handler = record {
  remote_peer_id = 1;
  events = [];
  active_streams = [];
  trigger_next_identify = 0;
  exchanged_one_periodic_identify = false;
  interval = 300;
  local_info = 7;
  remote_info = none;
  local_supported_protocols = 0;
  external_addresses = [];
  protocol_name = 3;
  push_protocol_name = 4;
}

calls-run :
    (run infos handler calls).0
    ≡ outbound_request (inl 3)
      ∷ notify_behaviour (identified 40)
      ∷ notify_behaviour (identified 42)
      ∷ []
unfolding run
calls-run = refl

run-new_remote_info_example :
    let (emitted, h) = run infos (new_handler runtime 300 1 [] 7 3 4) calls in
    h.remote_info ≡ last_identified none emitted
run-new_remote_info_example = run-new_remote_info infos runtime 300 1 [] 7 3 4 calls

run-new-NotPush_example : All NotPush (run infos (new_handler runtime 300 1 [] 7 3 4) calls).0
run-new-NotPush_example =
    run-new-NotPush infos runtime 300 1 [] 7 3 4 calls (tt, (tt, (tt, (tt, (tt, (tt, (tt, tt)))))))

-- A push from a peer that was not identified yet is all that there is.
abbrev pushed_early : Handler types
pushed_early = record handler { active_streams = read_push_in 2 ∷ []; trigger_next_identify = 9 }

poll-none_iff_example : ((poll infos runtime pushed_early).0 ≡ none) ↔ (
    (pushed_early.events ≡ [])
    × ((runtime.poll_delay pushed_early.trigger_next_identify).0 ≡ false)
    × IsIdle infos runtime pushed_early)
poll-none_iff_example = poll-none_iff infos runtime pushed_early

-- Two requests are queued.
abbrev queued : Handler types
queued = record handler { events = outbound_request (inr 4) ∷ outbound_request (inr 4) ∷ [] }

run-polls_due_example :
    run infos queued (polls infos (runtime ∷ runtime ∷ []) ++ (runtime, polled) ∷ []) ≡ (
      queued.events ++ outbound_request (inl 3) ∷ [],
      record queued { events = []; trigger_next_identify = 300 },
    )
run-polls_due_example = run-polls_due infos queued (runtime ∷ runtime ∷ []) runtime 0 refl refl
