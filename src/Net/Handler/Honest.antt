-- ===== src/Net/Handler/Honest.antt =====
-- The invariant of a `Handler` (blocknet/src/libp2p/peer_info/handler.rs) behind what it tells its
-- behaviour.
use rust_chain.Prelude.{
  ℕ, Bool, true, false, Option, none, some, List, [], ◌∷◌, ◌≡◌, refl, sym, subst, ap, All, inl, inr,
  List-cases, Option-cases, Bool-cases, ◌&&◌, if◌then◌else◌,
}
use rust_chain.Net.Protocol.{Info}
use rust_chain.Net.Codec.{Codec}
use rust_chain.Net.Types.{Types}
use rust_chain.Net.Handler.{
  Future, Runtime, Handler, Success, sent_identify, received_identify, sent_identify_push,
  received_identify_push, Polled, ready_ok, ready_err, timed_out, pending, write_out, read_in,
  read_push_in, write_push_out, try_push, waited, poll_idle, poll, settle_stream, ConnectionEvent,
  fully_negotiated_inbound, fully_negotiated_outbound, dial_upgrade_error, local_protocols_change,
  other_event, on_connection_event, on_fully_negotiated_inbound, on_fully_negotiated_outbound,
  on_behaviour_event, addresses_changed, push_info, new_handler, stream_timeout,
  max_concurrent_streams_per_connection,
}
use rust_chain.Net.Handler.Poll.{poll_queued, poll_empty}
use rust_chain.Net.Handler.Pushes.{All-note}
use rust_chain.Net.Handler.Run.{Input, from_behaviour, from_connection, polled, note, handle, run}
use rust_chain.Net.Handler.Provenance.{
  FuturesSet, Learned, merged, IsOurs, IsSeen, IsTrue, complete-IsSeen,
}

module _ {ℓ} (W : Types {ℓ}) (info : Info W.TInfo W.TPush)
    (codec : Codec W.TInfo W.TPush W.Stream W.E) (local : W.TInfo) where
  -- What is known of the remote peer was had of the streams.
  abbrev pub IsKnown : Option W.TInfo → Type ℓ
  IsKnown none = Unit
  IsKnown (some i) = Learned info codec i

  module _ (held : W.Streams → List (Future W)) where
    pub record IsHonest (h : Handler W) : Type ℓ where
      pub kept : h.local_info ≡ local
      pub queue : All (IsTrue W info codec local) h.events
      pub futures : All (IsOurs W info codec local) (held h.active_streams)
      pub remote : IsKnown h.remote_info

    settle_stream-IsHonest :
        (h : Handler W) (found : Polled (Success W.TInfo W.TPush) W.E)
        → ((out : Success W.TInfo W.TPush) → found ≡ ready_ok out → IsSeen W info codec local out)
        → IsHonest h
        → All (IsTrue W info codec local) (note (settle_stream info h found).0 [])
          × IsHonest (settle_stream info h found).1
    unfolding settle_stream
    settle_stream-IsHonest h (ready_ok (received_identify i)) seen q = (
      (seen _ refl, tt),
      record { kept = q.kept; queue = q.queue; futures = q.futures; remote = seen _ refl },
    )
    settle_stream-IsHonest h (ready_ok (sent_identify_push push)) seen q = ((seen _ refl, tt), q)
    settle_stream-IsHonest h (ready_ok sent_identify) seen q = ((seen _ refl, tt), q)
    settle_stream-IsHonest h (ready_ok (received_identify_push push)) seen q =
        elim (Option-cases h.remote_info) [
          | inl n ↦ rw (n, settle_stream) (tt, q)
          | inr (known, e) ↦
              let (stream, r) = seen _ refl in
              let learned = merged known stream push (subst IsKnown e q.remote) r in
              rw (e, settle_stream)
                (
                  (learned, tt),
                  record { kept = q.kept; queue = q.queue; futures = q.futures; remote = learned },
                )
        ]
    settle_stream-IsHonest h (ready_err e) seen q = ((tt, tt), q)
    settle_stream-IsHonest h timed_out seen q = ((tt, tt), q)
    settle_stream-IsHonest h pending seen q = (tt, q)

    module _ (lib : Runtime W) (laws : FuturesSet codec held lib) where
      try_push-IsHonest :
          (h : Handler W) (future : Future W)
          → IsOurs W info codec local future
          → IsHonest h
          → IsHonest (try_push lib h future).1
      unfolding try_push
      try_push-IsHonest h future ours q =
          elim (Option-cases (lib.try_push h.active_streams future)) [
            | inl n ↦ rw (n, try_push) q
            | inr (set, e) ↦
                rw (e, try_push)
                  (record {
                    kept = q.kept;
                    queue = q.queue;
                    futures =
                        laws.try_push_lem h.active_streams set future e (IsOurs W info codec local)
                          ours q.futures;
                    remote = q.remote;
                  })
          ]

      poll_idle-IsHonest :
          (h : Handler W)
          → IsHonest h
          → All (IsTrue W info codec local) (note (poll_idle info lib h).0 [])
            × IsHonest (poll_idle info lib h).1
      unfolding poll_idle
      poll_idle-IsHonest h q = elim (Bool-cases (lib.poll_delay h.trigger_next_identify).0) [
        | inl due ↦ rw due (
          (tt, tt),
          record { kept = q.kept; queue = q.queue; futures = q.futures; remote = q.remote },
        )
        | inr early ↦ rw early (
            settle_stream-IsHonest (waited lib h) (lib.poll_streams h.active_streams).0
              (λ out r.
                let (future, ours, o) =
                  laws.ready_lem h.active_streams (IsOurs W info codec local) out q.futures r in
                complete-IsSeen W info codec local future out ours o)
              (record {
                kept = q.kept;
                queue = q.queue;
                futures = laws.poll_lem h.active_streams (IsOurs W info codec local) q.futures;
                remote = q.remote;
              }))
      ]

      poll-IsHonest :
          (h : Handler W)
          → IsHonest h
          → All (IsTrue W info codec local) (note (poll info lib h).0 [])
            × IsHonest (poll info lib h).1
      poll-IsHonest h q = elim (List-cases h.events) [
        | inl n ↦ rw (poll_empty info lib h n) (poll_idle-IsHonest h q)
        | inr (event, events, e) ↦
            let queue = subst (All (IsTrue W info codec local)) e q.queue in
            rw (poll_queued info lib h event events e) (
              (queue.0, tt),
              record { kept = q.kept; queue = queue.1; futures = q.futures; remote = q.remote },
            )
      ]

      -- Setting the flag of the first exchange, or not.
      marked-IsHonest :
          (taken : Bool) (h : Handler W)
          → IsHonest h
          → IsHonest (if taken then record h { exchanged_one_periodic_identify = true } else h)
      marked-IsHonest true h q = record {
        kept = q.kept;
        queue = q.queue;
        futures = q.futures;
        remote = q.remote;
      }
      marked-IsHonest false h q = q

      on_connection_event-IsHonest :
          (h : Handler W) (event : ConnectionEvent W.Stream W.IoError W.Change)
          → IsHonest h
          → IsHonest (on_connection_event info lib h event)
      unfolding on_connection_event on_fully_negotiated_inbound on_fully_negotiated_outbound
      on_connection_event-IsHonest h (fully_negotiated_inbound (inl stream)) q =
          marked-IsHonest _ _ (try_push-IsHonest h (write_out stream h.local_info) q.kept q)
      on_connection_event-IsHonest h (fully_negotiated_inbound (inr stream)) q =
          try_push-IsHonest h (read_push_in stream) tt q
      on_connection_event-IsHonest h (fully_negotiated_outbound (inl stream)) q =
          try_push-IsHonest h (read_in stream) tt q
      on_connection_event-IsHonest h (fully_negotiated_outbound (inr stream)) q =
          try_push-IsHonest h (write_push_out stream (info.into_push h.local_info))
            (ap info.into_push q.kept) q
      on_connection_event-IsHonest h (dial_upgrade_error error) q = record {
        kept = q.kept;
        queue = (tt, q.queue);
        futures = q.futures;
        remote = q.remote;
      }
      on_connection_event-IsHonest h (local_protocols_change change) q =
          elim (Bool-cases (
            (lib.on_protocols_change h.local_supported_protocols change).0
            && h.exchanged_one_periodic_identify)) [
              | inl pushes ↦ rw pushes (record {
                kept = q.kept;
                queue = (tt, q.queue);
                futures = q.futures;
                remote = q.remote;
              })
              | inr quiet ↦ rw quiet (record {
                kept = q.kept;
                queue = q.queue;
                futures = q.futures;
                remote = q.remote;
              })
            ]
      on_connection_event-IsHonest h other_event q = q

      handle-IsHonest :
          (h : Handler W) (input : Input W)
          → IsHonest h
          → All (IsTrue W info codec local) (note (handle info h (lib, input)).0 [])
            × IsHonest (handle info h (lib, input)).1
      unfolding handle on_behaviour_event
      handle-IsHonest h (from_behaviour (addresses_changed addresses)) q =
          (tt, record { kept = q.kept; queue = q.queue; futures = q.futures; remote = q.remote })
      handle-IsHonest h (from_behaviour push_info) q = (
        tt,
        record { kept = q.kept; queue = (tt, q.queue); futures = q.futures; remote = q.remote },
      )
      handle-IsHonest h (from_connection event) q = (tt, on_connection_event-IsHonest h event q)
      handle-IsHonest h polled q = poll-IsHonest h q

    run-IsHonest :
        (h : Handler W) (inputs : List (Runtime W × Input W))
        → All (λ input. FuturesSet codec held input.0) inputs
        → IsHonest h
        → All (IsTrue W info codec local) (run info h inputs).0
    unfolding run
    run-IsHonest h [] laws q = tt
    run-IsHonest h ((lib, input) ∷ inputs) laws q =
        let now = handle-IsHonest lib laws.0 h input q in
        All-note (IsTrue W info codec local) _ _ now.0
          (run-IsHonest (handle info h (lib, input)).1 inputs laws.1 now.1)

    -- Over a set of futures that gives the outputs of what it holds, all that a new handler tells its
    -- behaviour comes from a stream, whatever happens: an identified info was read, or is one that was
    -- read with the pushes that were read since merged into it in some order; an identification followed a write of
    -- the local info, and a push told as made was one of the local info.
    pub run-new-IsTrue :
        (lib : Runtime W) (interval : ℕ) (peer : W.PeerId) (addresses : List W.Address)
        (name push_name : W.Protocol) (inputs : List (Runtime W × Input W))
        → FuturesSet codec held lib
        → All (λ input. FuturesSet codec held input.0) inputs
        → All
            (IsTrue W info codec local)
            (run info (new_handler lib interval peer addresses local name push_name) inputs).0
    unfolding new_handler
    run-new-IsTrue lib interval peer addresses name push_name inputs law laws =
        run-IsHonest (new_handler lib interval peer addresses local name push_name) inputs laws
          (record {
            kept = refl;
            queue = tt;
            futures =
                subst (All (IsOurs W info codec local))
                  (sym (law.new_lem stream_timeout max_concurrent_streams_per_connection)) tt;
            remote = tt;
          })
