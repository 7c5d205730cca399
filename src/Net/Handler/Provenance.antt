-- ===== src/Net/Handler/Provenance.antt =====
-- Where what a `Handler` (blocknet/src/libp2p/peer_info/handler.rs) tells its behaviour comes from.
use rust_chain.Prelude.{
  ℕ, some, List, [], ◌≡◌, refl, subst, ap, All, arith, Result, ok, err, diverged,
}
use rust_chain.Net.Protocol.{Info}
use rust_chain.Net.Codec.{Codec}
use rust_chain.Net.Types.{Types}
use rust_chain.Net.Handler.{
  Future, Emitted, Runtime, Success, sent_identify, received_identify, sent_identify_push,
  received_identify_push, ready_ok, write_out, read_in, read_push_in, write_push_out, complete,
  outbound_request, notify_behaviour, identified, identification, identification_pushed,
  identification_error,
}

-- What `futures_bounded::FuturesSet` documents, of the futures that a set holds: a new set is empty, a
-- push that is taken adds its future, and a poll adds none and gives the output of one that it held.
pub record FuturesSet {ℓ} {W : Types {ℓ}} (codec : Codec W.TInfo W.TPush W.Stream W.E)
    (held : W.Streams → List (Future W)) (lib : Runtime W) : Type (ℓ + 1) where
  pub new_lem : (timeout capacity : ℕ) → held (lib.new_streams timeout capacity) ≡ []
  pub try_push_lem :
      (set set' : W.Streams) (future : Future W)
      → lib.try_push set future ≡ some set'
      → (P : Future W → Type ℓ) → P future
      → All P (held set)
      → All P (held set')
  pub poll_lem :
      (set : W.Streams) (P : Future W → Type ℓ)
      → All P (held set)
      → All P (held (lib.poll_streams set).1)
  pub ready_lem :
      (set : W.Streams) (P : Future W → Type ℓ) (out : Success W.TInfo W.TPush)
      → All P (held set)
      → (lib.poll_streams set).0 ≡ ready_ok out
      → (future : Future W) × P future × (complete codec future ≡ ok out)

-- The infos that can be had of the streams: what is read, and what a push that is read is merged to.
pub data Learned {ℓ} {TInfo TPush Stream E : Type ℓ} (info : Info TInfo TPush)
    (codec : Codec TInfo TPush Stream E) : TInfo → Type ℓ where
  asked : (stream : Stream) (i : TInfo) → codec.read_info stream ≡ ok i → Learned info codec i
  merged :
      (i : TInfo) (stream : Stream) (push : TPush)
      → Learned info codec i
      → codec.read_push_info stream ≡ ok push
      → Learned info codec (info.merge i push)

-- A property of what a result is mapped to.
map_ok_lem {ℓ κ μ ν} :
    {A : Type ℓ} {B : Type κ} {E : Type μ} (f : A → B) (r : Result A E) (out : B) (P : B → Type ν)
    → ((a : A) → r ≡ ok a → P (f a))
    → elim r [ ok a ↦ ok (f a) | err e ↦ err e | diverged ↦ diverged ] ≡ ok out
    → P out
map_ok_lem f (ok a) out P h o =
    subst P (ap (λ r. elim r [ ok x ↦ x | err e ↦ f a | diverged ↦ f a ]) o) (h a refl)
map_ok_lem f (err e) out P h o = absurd (ground (arith, o))
map_ok_lem f diverged out P h o = absurd (ground (arith, o))

module _ {ℓ} (W : Types {ℓ}) (info : Info W.TInfo W.TPush)
    (codec : Codec W.TInfo W.TPush W.Stream W.E) (local : W.TInfo) where
  -- The futures that write, write the local info or its push.
  abbrev pub IsOurs : Future W → Type ℓ
  IsOurs (write_out stream i) = i ≡ local
  IsOurs (write_push_out stream push) = push ≡ info.into_push local
  IsOurs (read_in stream) = Unit
  IsOurs (read_push_in stream) = Unit

  -- An output of a future comes from a stream.
  abbrev pub IsSeen : Success W.TInfo W.TPush → Type ℓ
  IsSeen sent_identify = (stream : W.Stream) × ((codec.write_info stream local).0 ≡ ok tt)
  IsSeen (received_identify i) = Learned info codec i
  IsSeen (sent_identify_push push) =
      (push ≡ info.into_push local)
      × ((stream : W.Stream) × ((codec.write_push_info stream push).0 ≡ ok tt))
  IsSeen (received_identify_push push) =
      (stream : W.Stream) × (codec.read_push_info stream ≡ ok push)

  -- What a handler tells its behaviour comes from a stream; its requests and errors tell nothing.
  abbrev pub IsTrue : Emitted W → Type ℓ
  IsTrue (outbound_request upgrade) = Unit
  IsTrue (notify_behaviour (identified i)) = IsSeen (received_identify i)
  IsTrue (notify_behaviour identification) = IsSeen sent_identify
  IsTrue (notify_behaviour (identification_pushed push)) = IsSeen (sent_identify_push push)
  IsTrue (notify_behaviour (identification_error e)) = Unit

  pub complete-IsSeen :
      (future : Future W) (out : Success W.TInfo W.TPush)
      → IsOurs future
      → complete codec future ≡ ok out
      → IsSeen out
  unfolding complete
  complete-IsSeen (write_out stream i) out ours o =
      map_ok_lem (λ _. sent_identify) (codec.write_info stream i).0 out IsSeen
        (λ u r. (stream, subst (λ j. (codec.write_info stream j).0 ≡ ok tt) ours r)) o
  complete-IsSeen (read_push_in stream) out ours o =
      map_ok_lem received_identify_push (codec.read_push_info stream) out IsSeen
        (λ p r. (stream, r)) o
  complete-IsSeen (read_in stream) out ours o =
      map_ok_lem received_identify (codec.read_info stream) out IsSeen (λ i r. asked stream i r) o
  complete-IsSeen (write_push_out stream push) out ours o =
      map_ok_lem (λ _. sent_identify_push push) (codec.write_push_info stream push).0 out IsSeen
        (λ u r. (ours, (stream, r))) o
