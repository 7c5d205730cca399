-- ===== src/Tests/Node.antt =====
-- A node of blocknet/src/libp2p/mod.rs, of which every part is a number, and locks of util/sync-extra.
use rust_chain.Prelude.{
  ℕ, ◌+◌, true, false, some, List, [], ◌∷◌, ◌++◌, ◌≡◌, All, refl, inl, ok, map, ltb, if◌then◌else◌,
}
use rust_chain.Prelude.Eq.{nat_eq}
use rust_chain.Prelude.{Outcome, returned, panicked}
use rust_chain.SyncExtra.{new_lock}
use rust_chain.SyncExtra.Uses.{Use, locked, written, read, use_all, outcomes_of, use_all-new}
use rust_chain.Net.Types.{Types}
use rust_chain.Net.Handler.{Exchange, Runtime, pending, identification}
use rust_chain.Net.Behaviour.{Addresses, connection_established, listener}
use rust_chain.Net.Worker.{broadcast_listen}
use rust_chain.Net.Worker.Service.{PeerFullInfo, new_service, local_info, peers}
use rust_chain.Net.Worker.Service.Shared.{
  Call, get_info, set_info, get_peers, call_all, answers, last_info, call_all-new,
}
use rust_chain.Net.Node.{Parts, Setup, Node, full_types, new_worker, service_of}
use rust_chain.Net.Node.Run.{
  Input, service_call, worker_step, swarm_event, connection, handler_told, swarm_polled, run_node,
}
use rust_chain.Net.Node.Run.Local.{IsFirst, calls_of, run_node-new_worker}
use rust_chain.Tests.Handler.{types}
use rust_chain.Tests.Worker.{libraries}

-- Adds to the value, and panics once it is 5 and more.
abbrev bump : ℕ → Outcome ℕ × ℕ
bump n = if ltb n 5 then (returned n, n + 3) else (panicked, n + 100)

abbrev uses : List (Use ℕ ℕ)
uses =
    written bump ∷ read (λ n. returned n) ∷ locked bump ∷ written bump ∷ read (λ n. returned n) ∷ []

use_all-new_example : (use_all (new_lock 1) uses).0 ≡ outcomes_of 1 uses
use_all-new_example = use_all-new 1 uses

abbrev service_calls : List (Call ℕ)
service_calls = get_info ∷ set_info 8 ∷ get_peers ∷ get_info ∷ []

call_all-new_example :
    call_all (new_service {PeerId = ℕ} 7) service_calls
    ≡ (map returned (answers 7 service_calls), new_service (last_info 7 service_calls))
call_all-new_example = call_all-new 7 service_calls

abbrev node_types : Types {0}
node_types = record types { Streams = List (Exchange (PeerFullInfo ℕ) (PeerFullInfo ℕ) ℕ) }

abbrev parts : Parts {0}
parts = record {
  Gossip = ℕ;
  Kademlia = ℕ;
  Identify = ℕ;
  Mdns = ℕ;
  RequestResponse = ℕ;
  NoiseError = ℕ;
  BoxError = ℕ;
}

abbrev setup : Setup node_types parts
setup = record {
  key = 1;
  from_public_key = λ key. key + 10;
  with_tcp = ok tt;
  new_gossipsub = λ key. ok 0;
  new_kademlia = λ peer. peer;
  new_identify = λ version key. key;
  new_mdns = λ peer. ok peer;
  new_request_response = λ protocol. protocol;
  agent_version = 0;
  blocknet_version = 1;
  peer_info_protocol = 2;
  peer_info_push_protocol = 3;
  request_response_protocol = 4;
  no_listen = 0;
  no_external = 0;
}

abbrev node_runtime : Runtime (full_types node_types ℕ)
node_runtime = record {
  new_delay = λ n. n;
  reset = λ delay n. n;
  poll_delay = λ n. (false, n);
  new_streams = λ timeout capacity. [];
  try_push = λ futures future. some (futures ++ future ∷ []);
  poll_streams = λ futures. (pending, futures);
  no_protocols = 0;
  on_protocols_change = λ protocols change. (true, change);
}

abbrev node_addresses : Addresses (full_types node_types ℕ)
node_addresses = record {
  on_listen = λ event n. (true, n + 1);
  on_external = λ event n. (false, n);
  listen_list = λ n. n ∷ [];
  external_list = λ n. [];
}

-- The info is set before a second connection is made.
abbrev node_inputs : List (Input node_types parts ℕ ℕ ℕ ℕ ℕ)
node_inputs =
    connection node_addresses node_runtime 20
    ∷ swarm_event node_addresses (connection_established 20 5 (listener 7 8))
    ∷ service_call (set_info 8)
    ∷ worker_step libraries (inl (broadcast_listen 3 5))
    ∷ handler_told 20 identification
    ∷ swarm_polled
    ∷ connection node_addresses node_runtime 21
    ∷ []

run_node-new_worker_example :
    (node : Node node_types parts ℕ ℕ ℕ) × (new_worker setup 7 ≡ ok node)
    × (let (made, node') = run_node node node_inputs in
        All (IsFirst node_types 7) made
        × (local_info (service_of node') ≡ returned (last_info 7 (calls_of node_inputs)))
        × (peers (service_of node') ≡ returned [])
        × (node'.delivered ≡ []))
run_node-new_worker_example = run_node-new_worker 7 setup 0 11 refl refl refl node_inputs
