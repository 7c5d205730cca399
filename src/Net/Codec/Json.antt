-- ===== src/Net/Codec/Json.antt =====
-- blocknet/src/libp2p/peer_info/json.rs: the codec that writes infos and pushes as JSON.
use rust_chain.Prelude.{
  ℕ, zero, suc, ◌*◌, ◌≤◌, ◌≡◌, refl, List, [], ◌∷◌, ◌++◌, length, arith, Result, ok, err, diverged,
  map_err, ◌>>=◌, ◌∙◌, ap,
}
use rust_chain.Net.Protocol.{UpgradeError, codec, io}
use rust_chain.Net.Codec.{Codec}

-- `SIZE_MAXIMUM`.
abbrev pub size_maximum : ℕ
size_maximum = 1024 * 1024

-- The bytes that `take(n)` lets pass.
abbrev pub take {ℓ} : {A : Type ℓ} → ℕ → List A → List A
take zero xs = []
take (suc n) [] = []
take (suc n) (x ∷ xs) = x ∷ take n xs

-- `serde_json` at a type, over its errors; `format` is `format!("{:?}", e)`.
pub record Serde {ℓ} (T Fault Text : Type ℓ) : Type ℓ where
  pub to_vec : T → Result (List ℕ) Fault
  pub from_slice : List ℕ → Result T Fault
  pub format : Fault → Text

-- `futures::io`. `pending` is what a stream gives until its end, `written` is what it was given.
-- `read_to_end n` is `take(n).read_to_end(…)`: unless it fails, it gives the first `n` pending bytes.
-- A `write_all` that succeeds writes all bytes.
pub record Io {ℓ} (Stream IoError : Type ℓ) : Type ℓ where
  pub pending : Stream → List ℕ
  pub written : Stream → List ℕ
  pub read_to_end : ℕ → Stream → Result (List ℕ) IoError
  pub write_all : Stream → List ℕ → Result (Unit {0}) IoError × Stream
  pub read_to_end_lem :
      (n : ℕ) (s : Stream) (bytes : List ℕ)
      → read_to_end n s ≡ ok bytes
      → bytes ≡ take n (pending s)
  pub write_all_lem :
      (s : Stream) (bytes : List ℕ)
      → (write_all s bytes).0 ≡ ok tt
      → written (write_all s bytes).1 ≡ written s ++ bytes

module _ {ℓ} {T Fault Text Stream IoError AddressError KeyError : Type ℓ}
    (serde : Serde T Fault Text) (lib : Io Stream IoError) where
  -- `read_info` and `read_push_info`, which are the same at two types.
  unfoldable pub read : Stream → Result T (UpgradeError Text IoError AddressError KeyError)
  read stream = do
    bytes ← map_err io (lib.read_to_end size_maximum stream)
    map_err (λ e. codec (serde.format e)) (serde.from_slice bytes)

  -- `write_info` and `write_push_info`.
  unfoldable pub write :
      Stream → T → Result (Unit {0}) (UpgradeError Text IoError AddressError KeyError) × Stream
  write stream info = elim (serde.to_vec info) [
    | ok bytes ↦ (map_err io (lib.write_all stream bytes).0, (lib.write_all stream bytes).1)
    | err e ↦ (err (codec (serde.format e)), stream)
    | diverged ↦ (diverged, stream)
  ]

-- `json::Codec`.
abbrev pub json {ℓ} :
    {TInfo TPush Fault Text Stream IoError AddressError KeyError : Type ℓ}
    → Serde TInfo Fault Text
    → Serde TPush Fault Text
    → Io Stream IoError
    → Codec TInfo TPush Stream (UpgradeError Text IoError AddressError KeyError)
json infos pushes lib = record {
  read_info = read infos lib;
  read_push_info = read pushes lib;
  write_info = write infos lib;
  write_push_info = write pushes lib;
}

take_all {ℓ} : {A : Type ℓ} (n : ℕ) (xs : List A) → length xs ≤ n → take n xs ≡ xs
take_all zero [] h = refl
take_all zero (x ∷ xs) h = absurd (omega arith)
take_all (suc n) [] h = refl
take_all (suc n) (x ∷ xs) h = ap (λ ys. x ∷ ys) (take_all n xs (omega arith))

-- A read whose outcome is decoded.
settle_read {ℓ κ} :
    {A : Type κ} {T IoError Text AddressError KeyError : Type ℓ} (r : Result A IoError)
    (f : A → Result T (UpgradeError Text IoError AddressError KeyError)) (a : A)
    → ((x : A) → r ≡ ok x → x ≡ a)
    → (map_err io r >>= f) ≡ elim r [ ok _ ↦ f a | err e ↦ err (io e) | diverged ↦ diverged ]
settle_read (ok x) f a h = ap f (h x refl)
settle_read (err e) f a h = refl
settle_read diverged f a h = refl

module _ {ℓ} {T Fault Text Stream IoError AddressError KeyError : Type ℓ}
    (serde : Serde T Fault Text) (lib : Io Stream IoError) (info : T) (bytes : List ℕ)
    (v : serde.to_vec info ≡ ok bytes) (stream far : Stream) (fresh : lib.written stream ≡ [])
    (o : (write {AddressError = AddressError} {KeyError = KeyError} serde lib stream info).0
      ≡ ok tt)
    (p : lib.pending far
      ≡ lib.written
          (write {AddressError = AddressError} {KeyError = KeyError} serde lib stream info).1) where
  pending-write : lib.pending far ≡ bytes
  unfolding write
  pending-write =
      let done : (lib.write_all stream bytes).0 ≡ ok tt = ground (arith, v, o) in
      p ∙ (rw (v, write)) ∙ lib.write_all_lem stream bytes done ∙ ap (λ xs. xs ++ bytes) fresh

  -- An info or a push that is written to a fresh stream without an error, and whose bytes are what
  -- the far end reads, is decoded there from its first MiB of JSON, unless the far stream fails.
  pub read-write_cut :
      read {AddressError = AddressError} {KeyError = KeyError} serde lib far
      ≡ elim (lib.read_to_end size_maximum far) [
        | ok _ ↦ map_err (λ e. codec (serde.format e)) (serde.from_slice (take size_maximum bytes))
        | err e ↦ err (io e)
        | diverged ↦ diverged
      ]
  unfolding read
  read-write_cut =
      settle_read (lib.read_to_end size_maximum far)
        (λ bs. map_err (λ e. codec (serde.format e)) (serde.from_slice bs))
        (take size_maximum bytes)
        (λ bs r. lib.read_to_end_lem size_maximum far bs r ∙ ap (take size_maximum) pending-write)

  pub read-write :
      serde.from_slice bytes ≡ ok info
      → length bytes ≤ size_maximum
      → read {AddressError = AddressError} {KeyError = KeyError} serde lib far
        ≡ elim (lib.read_to_end size_maximum far) [
          | ok _ ↦ ok info
          | err e ↦ err (io e)
          | diverged ↦ diverged
        ]
  read-write d short =
      read-write_cut
      ∙ ap
          (λ r. elim (lib.read_to_end size_maximum far) [
            | ok _ ↦ map_err (λ e. codec (serde.format e)) r
            | err e ↦ err (io e)
            | diverged ↦ diverged
          ])
          (ap serde.from_slice (take_all size_maximum bytes short) ∙ d)
