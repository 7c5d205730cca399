-- ===== src/Net/Handler/Identify.antt =====
-- The two ends of a stream of blocknet/src/libp2p/peer_info/handler.rs, with the codec of json.rs.
use rust_chain.Prelude.{ℕ, ◌≤◌, ◌≡◌, List, [], arith, Result, ok, err, diverged, length}
use rust_chain.Net.Protocol.{UpgradeError, io}
use rust_chain.Net.Codec.{Codec}
use rust_chain.Net.Codec.Json.{Serde, Io, json, size_maximum, read-write}
use rust_chain.Net.Handler.{write_out, read_in, sent_identify, received_identify, complete}

module _ {ℓ} {TInfo TPush Stream E : Type ℓ} where
  write_out_done :
      (c : Codec TInfo TPush Stream E) (stream : Stream) (info : TInfo)
      → complete c (write_out stream info) ≡ ok sent_identify
      → (c.write_info stream info).0 ≡ ok tt
  unfolding complete
  write_out_done c stream info o = ground (arith, o)

-- A read of an info, of which a failure of the stream is the one way to fail.
complete-read_in {ℓ κ} :
    {TInfo TPush Stream Text IoError AddressError KeyError : Type ℓ} {A : Type κ}
    (c : Codec TInfo TPush Stream (UpgradeError Text IoError AddressError KeyError)) (far : Stream)
    (info : TInfo) (r : Result A IoError)
    → c.read_info far ≡ elim r [ ok _ ↦ ok info | err e ↦ err (io e) | diverged ↦ diverged ]
    → complete c (read_in far)
      ≡ elim r [ ok _ ↦ ok (received_identify info) | err e ↦ err (io e) | diverged ↦ diverged ]
unfolding complete
complete-read_in c far info (ok _) h = ground (arith, h)
complete-read_in c far info (err e) h = ground (arith, h)
complete-read_in c far info diverged h = ground (arith, h)

module _ {ℓ} {TInfo TPush Fault Text Stream IoError AddressError KeyError : Type ℓ}
    (infos : Serde TInfo Fault Text) (pushes : Serde TPush Fault Text)
    (lib : Io Stream IoError) where
  -- When a future that writes the local info succeeds, on a fresh stream and with an info whose JSON
  -- decodes to it and has at most a MiB, then the future that reads the far end of that stream
  -- comes to the same info as received, unless that end fails.
  pub complete-complete :
      (info : TInfo) (bytes : List ℕ)
      → infos.to_vec info ≡ ok bytes
      → infos.from_slice bytes ≡ ok info
      → length bytes ≤ size_maximum
      → (stream far : Stream) → lib.written stream ≡ []
      → let codec : Codec TInfo TPush Stream (UpgradeError Text IoError AddressError KeyError) =
          json infos pushes lib in
        complete codec (write_out stream info) ≡ ok sent_identify
        → lib.pending far ≡ lib.written (codec.write_info stream info).1
        → complete codec (read_in far) ≡ elim (lib.read_to_end size_maximum far) [
          | ok _ ↦ ok (received_identify info)
          | err e ↦ err (io e)
          | diverged ↦ diverged
        ]
  complete-complete info bytes v d short stream far fresh o p =
      let codec = json infos pushes lib in
      complete-read_in codec far info (lib.read_to_end size_maximum far) (
        read-write infos lib info bytes v stream far fresh (write_out_done codec stream info o) p d
          short)
