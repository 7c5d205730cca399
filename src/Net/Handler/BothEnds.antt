-- ===== src/Net/Handler/BothEnds.antt =====
-- Two peers that both run blocknet/src/libp2p/peer_info/handler.rs with the codec of json.rs.
use rust_chain.Prelude.{
  ℕ, ◌≤◌, ◌≡◌, ◌∙◌, sym, ap, List, [], All, All-imp, arith, Result, ok, err, diverged, length,
}
use rust_chain.Net.Protocol.{Info, UpgradeError, io}
use rust_chain.Net.Codec.{Codec}
use rust_chain.Net.Codec.Json.{Serde, Io, json, read, write, size_maximum, read-write}
use rust_chain.Net.Types.{Types}
use rust_chain.Net.Handler.{
  Future, Runtime, Emitted, notify_behaviour, identified, identification, identification_pushed,
  identification_error, outbound_request, new_handler,
}
use rust_chain.Net.Handler.Run.{Input, run}
use rust_chain.Net.Handler.Provenance.{FuturesSet, Learned, asked, merged, IsTrue}
use rust_chain.Net.Handler.Honest.{run-new-IsTrue}

-- The types of peer_info with the errors of this codec.
abbrev pub json_types {ℓ} : Types {ℓ} → (AddressError KeyError : Type ℓ) → Types {ℓ}
json_types V AddressError KeyError = record V {
  E = UpgradeError V.Text V.IoError AddressError KeyError;
}

-- The bytes are the JSON of the value, which decodes to it, and at most a MiB.
abbrev pub IsJson {ℓ} : {T Fault Text : Type ℓ} → Serde T Fault Text → T → List ℕ → Type ℓ
IsJson serde value bytes =
    (serde.to_vec value ≡ ok bytes)
    × (serde.from_slice bytes ≡ ok value)
    × (length bytes ≤ size_maximum)

module _ {ℓ} {T Fault Text Stream IoError : Type ℓ} (AddressError KeyError : Type ℓ)
    (serde : Serde T Fault Text) (lib : Io Stream IoError) where
  -- What a stream has pending was written, as the JSON of the value, to a fresh stream.
  abbrev pub IsFarEnd : T → Stream → Type ℓ
  IsFarEnd value far =
      (near : Stream) × (lib.written near ≡ [])
      × ((write {AddressError = AddressError} {KeyError = KeyError} serde lib near value).0 ≡ ok tt)
      × (lib.pending far
          ≡ lib.written
              (write {AddressError = AddressError} {KeyError = KeyError} serde lib near value).1)

  ok_of_read :
      (r : Result (List ℕ) IoError) (value x : T)
      → ◌≡◌ {A = Result T (UpgradeError Text IoError AddressError KeyError)}
          (elim r [ ok _ ↦ ok value | err e ↦ err (io e) | diverged ↦ diverged ])
          (ok x)
      → x ≡ value
  ok_of_read (ok _) value x h = ground (arith, h)
  ok_of_read (err e) value x h = absurd (ground (arith, h))
  ok_of_read diverged value x h = absurd (ground (arith, h))

  read_far_end :
      (value x : T) (bytes : List ℕ) (far : Stream)
      → IsJson serde value bytes
      → IsFarEnd value far
      → read {AddressError = AddressError} {KeyError = KeyError} serde lib far ≡ ok x
      → x ≡ value
  read_far_end value x bytes far (v, d, short) (near, fresh, o, p) r =
      ok_of_read (lib.read_to_end size_maximum far) value x
        (sym (read-write serde lib value bytes v near far fresh o p d short) ∙ r)

module _ {ℓ} (V : Types {ℓ}) (AddressError KeyError : Type ℓ) {Fault : Type ℓ}
    (infos : Serde V.TInfo Fault V.Text) (pushes : Serde V.TPush Fault V.Text)
    (lib : Io V.Stream V.IoError) (info : Info V.TInfo V.TPush) (theirs : V.TInfo) where
  -- An identified info is the remote peer's.
  abbrev pub IsTheirs : Emitted (json_types V AddressError KeyError) → Type ℓ
  IsTheirs (notify_behaviour (identified i)) = i ≡ theirs
  IsTheirs (notify_behaviour identification) = Unit
  IsTheirs (notify_behaviour (identification_pushed push)) = Unit
  IsTheirs (notify_behaviour (identification_error e)) = Unit
  IsTheirs (outbound_request upgrade) = Unit

  module _ (bytes push_bytes : List ℕ) (j : IsJson infos theirs bytes)
      (k : IsJson pushes (info.into_push theirs) push_bytes)
      (whole : (i : V.TInfo) → info.merge i (info.into_push theirs) ≡ theirs)
      (answers : (far : V.Stream) (i : V.TInfo)
        → read {AddressError = AddressError} {KeyError = KeyError} infos lib far ≡ ok i
        → IsFarEnd AddressError KeyError infos lib theirs far)
      (pushed : (far : V.Stream) (push : V.TPush)
        → read {AddressError = AddressError} {KeyError = KeyError} pushes lib far ≡ ok push
        → IsFarEnd AddressError KeyError pushes lib (info.into_push theirs) far) where
    abbrev far_codec :
        Codec V.TInfo V.TPush V.Stream (UpgradeError V.Text V.IoError AddressError KeyError)
    far_codec = json infos pushes lib

    Learned-theirs : (i : V.TInfo) → Learned info far_codec i → i ≡ theirs
    Learned-theirs i (asked far i' r) =
        read_far_end AddressError KeyError infos lib theirs i bytes far j (answers far i r) r
    Learned-theirs i (merged before far push l r) =
        ap (info.merge before) (
          read_far_end AddressError KeyError pushes lib (info.into_push theirs) push push_bytes far
            k (pushed far push r) r)
        ∙ whole before

    IsTrue-IsTheirs :
        (local : V.TInfo) (told : Emitted (json_types V AddressError KeyError))
        → IsTrue (json_types V AddressError KeyError) info far_codec local told
        → IsTheirs told
    IsTrue-IsTheirs local (notify_behaviour (identified i)) l = Learned-theirs i l
    IsTrue-IsTheirs local (notify_behaviour identification) l = tt
    IsTrue-IsTheirs local (notify_behaviour (identification_pushed push)) l = tt
    IsTrue-IsTheirs local (notify_behaviour (identification_error e)) l = tt
    IsTrue-IsTheirs local (outbound_request upgrade) l = tt

    -- A handler that reads from streams at whose other end a peer has written its one info, or pushed
    -- it, as JSON of at most a MiB that decodes to it, with pushes that replace the info: over sets of
    -- futures that give the outputs of what they hold, and whatever happens, every info that the
    -- handler, a new one, tells as identified is the info of that peer.
    pub run-new-IsTheirs :
        (held : V.Streams → List (Future (json_types V AddressError KeyError)))
        (lib' : Runtime (json_types V AddressError KeyError)) (local : V.TInfo) (interval : ℕ)
        (peer : V.PeerId) (addresses : List V.Address) (name push_name : V.Protocol)
        (inputs : List (
          Runtime (json_types V AddressError KeyError)
          × Input (json_types V AddressError KeyError)))
        → FuturesSet {W = json_types V AddressError KeyError} far_codec held lib'
        → All
            (λ input. FuturesSet {W = json_types V AddressError KeyError} far_codec held input.0)
            inputs
        → All IsTheirs
            (run {W = json_types V AddressError KeyError} info
              (new_handler lib' interval peer addresses local name push_name)
              inputs).0
    run-new-IsTheirs held lib' local interval peer addresses name push_name inputs law laws =
        All-imp (IsTrue-IsTheirs local) _ (
          run-new-IsTrue (json_types V AddressError KeyError) info far_codec local held lib'
            interval peer addresses name push_name inputs law laws)
