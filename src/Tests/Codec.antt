-- ===== src/Tests/Codec.antt =====
-- Instances over blocknet/src/libp2p/peer_info/json.rs. The JSON of a number is the number and an end.
use rust_chain.Prelude.{
  ℕ, List, [], ◌∷◌, ◌++◌, ◌≡◌, refl, Result, ok, err, diverged, map_err, arith,
}
use rust_chain.Net.Protocol.{codec, io}
use rust_chain.Net.Codec.Json.{Serde, Io, take, size_maximum, read, write, read-write_cut}

abbrev parse : List ℕ → Result ℕ ℕ
parse (info ∷ end ∷ []) = ok info
parse _ = err 4

abbrev pub serde : Serde ℕ ℕ ℕ
serde = record { to_vec = λ info. ok (info ∷ 0 ∷ []); from_slice = parse; format = λ fault. fault }

abbrev read_first : ℕ → List ℕ × List ℕ → Result (List ℕ) ℕ
read_first n s = ok (take n s.0)

taken :
    (n : ℕ) (s : List ℕ × List ℕ) (bytes : List ℕ) → read_first n s ≡ ok bytes → bytes ≡ take n s.0
taken n s bytes r = ground (arith, r)

-- What a stream gives, and what it was given.
abbrev duplex : Io (List ℕ × List ℕ) ℕ
duplex = record {
  pending = λ s. s.0;
  written = λ s. s.1;
  read_to_end = read_first;
  write_all = λ s bytes. (ok tt, (s.0, s.1 ++ bytes));
  read_to_end_lem = taken;
  write_all_lem = λ s bytes o. refl;
}

abbrev near : List ℕ × List ℕ
near = ([], [])

abbrev far : List ℕ × List ℕ
far = (7 ∷ 0 ∷ [], [])

read-write_cut_example :
    read {AddressError = ℕ} {KeyError = ℕ} serde duplex far
    ≡ elim (duplex.read_to_end size_maximum far) [
      | ok _ ↦
          map_err (λ e. codec (serde.format e)) (serde.from_slice (take size_maximum (7 ∷ 0 ∷ [])))
      | err e ↦ err (io e)
      | diverged ↦ diverged
    ]
unfolding write
read-write_cut_example = read-write_cut serde duplex 7 (7 ∷ 0 ∷ []) refl near far refl refl refl
