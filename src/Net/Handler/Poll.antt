-- ===== src/Net/Handler/Poll.antt =====
-- What `Handler::poll` (blocknet/src/libp2p/peer_info/handler.rs) gives, and in which order.
use rust_chain.Prelude.{
  true, false, none, some, List, [], ◌∷◌, ◌++◌, ◌≡◌, refl, ◌⊎◌, inl, inr, ◌↔◌, arith, List-cases,
  Bool-cases, length, map, ap,
}
use rust_chain.Net.Protocol.{Info}
use rust_chain.Net.Types.{Types}
use rust_chain.Net.Handler.{
  Emitted, Runtime, Handler, outbound_request, Success, received_identify_push, received_identify,
  sent_identify, sent_identify_push, Polled, ready_ok, ready_err, timed_out, pending, poll,
  poll_idle, settle_stream,
}
use rust_chain.Net.Handler.Run.{Input, polled, handle, run}

module _ {ℓ} {W : Types {ℓ}} (info : Info W.TInfo W.TPush) (lib : Runtime W) where
  pub poll_queued :
      (h : Handler W) (event : Emitted W) (events : List (Emitted W))
      → h.events ≡ event ∷ events
      → poll info lib h ≡ (some event, record h { events = events })
  unfolding poll
  poll_queued h event events e = rw e

  pub poll_empty : (h : Handler W) → h.events ≡ [] → poll info lib h ≡ poll_idle info lib h
  unfolding poll
  poll_empty h e = rw e

  -- The polled set holds nothing that the handler reports: nothing is ready, or it is a push from a peer
  -- that was not identified yet.
  abbrev pub IsIdle : Handler W → Type ℓ
  IsIdle h =
      ((lib.poll_streams h.active_streams).0 ≡ pending)
      ⊎ ((push : W.TPush) × ((lib.poll_streams h.active_streams).0
            ≡ ready_ok (received_identify_push push))
          × (h.remote_info ≡ none))

  settle_stream-none :
      (h : Handler W) (found : Polled (Success W.TInfo W.TPush) W.E)
      → (settle_stream info h found).0 ≡ none
      → (found ≡ pending)
        ⊎ ((push : W.TPush) × (found ≡ ready_ok (received_identify_push push))
            × (h.remote_info ≡ none))
  unfolding settle_stream
  settle_stream-none h (ready_ok (received_identify i)) n = cc
  settle_stream-none h (ready_ok (sent_identify_push push)) n = cc
  settle_stream-none h (ready_ok sent_identify) n = cc
  settle_stream-none h (ready_ok (received_identify_push push)) n = inr (push, refl, ground arith)
  settle_stream-none h (ready_err e) n = cc
  settle_stream-none h timed_out n = cc
  settle_stream-none h pending n = inl refl

  settle_stream_idle :
      (h : Handler W) (push : W.TPush)
      → h.remote_info ≡ none
      → (settle_stream info h (ready_ok (received_identify_push push))).0 ≡ none
  unfolding settle_stream
  settle_stream_idle h push n = rw n

  poll_idle-none_iff :
      (h : Handler W)
      → ((poll_idle info lib h).0 ≡ none)
        ↔ (((lib.poll_delay h.trigger_next_identify).0 ≡ false) × IsIdle h)
  unfolding poll_idle
  poll_idle-none_iff h = elim (Bool-cases (lib.poll_delay h.trigger_next_identify).0) [
    | inl due ↦ rw due (λ n. cc, λ n. cc)
    | inr early ↦ rw early (
      λ n. (refl, settle_stream-none _ _ n),
      λ n. elim n.1 [
        | inl idle ↦ rw (idle, settle_stream)
        | inr (push, found, unknown) ↦ rw found (settle_stream_idle _ push unknown)
      ],
    )
  ]

  -- poll answers `Poll::Pending` exactly if no event is queued, the timer is not due, and the set has
  -- nothing ready or just a push from a peer that was not identified yet.
  pub poll-none_iff :
      (h : Handler W)
      → ((poll info lib h).0 ≡ none)
        ↔ ((h.events ≡ []) × ((lib.poll_delay h.trigger_next_identify).0 ≡ false) × IsIdle h)
  poll-none_iff h = elim (List-cases h.events) [
    | inl n ↦ rw (poll_empty h n) (
      λ e. let r = (poll_idle-none_iff h).0 e in (n, r.0, r.1),
      λ x. (poll_idle-none_iff h).1 (x.1, x.2),
    )
    | inr (event, events, e) ↦ rw (poll_queued h event events e) (λ x. cc, λ x. cc)
  ]

  poll_due :
      (h : Handler W) (delay : W.Delay)
      → h.events ≡ []
      → lib.poll_delay h.trigger_next_identify ≡ (true, delay)
      → poll info lib h ≡ (
        some (outbound_request (inl h.protocol_name)),
        record h { trigger_next_identify = lib.reset delay h.interval },
      )
  unfolding poll poll_idle
  poll_due h delay e due = rw (e, due)

module _ {ℓ} {W : Types {ℓ}} (info : Info W.TInfo W.TPush) where
  -- Polls.
  abbrev pub polls : List (Runtime W) → List (Runtime W × Input W)
  polls = map (λ lib. (lib, polled))

  run-polls :
      (h : Handler W) (libs : List (Runtime W)) (lib : Runtime W) (delay : W.Delay)
      (events : List (Emitted W))
      → h.events ≡ events
      → length libs ≡ length events
      → lib.poll_delay h.trigger_next_identify ≡ (true, delay)
      → run info h (polls libs ++ (lib, polled) ∷ []) ≡ (
        events ++ outbound_request (inl h.protocol_name) ∷ [],
        record h { events = []; trigger_next_identify = lib.reset delay h.interval },
      )
  unfolding run handle
  run-polls h [] lib delay [] e n due = rw (poll_due info lib h delay e due) (rw e)
  run-polls h [] lib delay (event ∷ events) e n due = absurd (omega arith)
  run-polls h (l ∷ libs) lib delay [] e n due = absurd (omega arith)
  run-polls h (l ∷ libs) lib delay (event ∷ events) e n due =
      rw (poll_queued info l h event events e) (
        ap (λ r. (event ∷ r.0, r.1))
          (run-polls (record h { events = events }) libs lib delay events refl (omega arith) due))

  -- Once as many polls have been made as events are queued, the next poll at which the timer is due
  -- asks for a stream to identify the peer: the queue comes first, the last queued event before the
  -- others, then the request, and the timer starts again.
  pub run-polls_due :
      (h : Handler W) (libs : List (Runtime W)) (lib : Runtime W) (delay : W.Delay)
      → length libs ≡ length h.events
      → lib.poll_delay h.trigger_next_identify ≡ (true, delay)
      → run info h (polls libs ++ (lib, polled) ∷ []) ≡ (
        h.events ++ outbound_request (inl h.protocol_name) ∷ [],
        record h { events = []; trigger_next_identify = lib.reset delay h.interval },
      )
  run-polls_due h libs lib delay n due = run-polls h libs lib delay h.events refl n due
