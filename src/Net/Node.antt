-- ===== src/Net/Node.antt =====
-- blocknet/src/libp2p/mod.rs: `Worker::new`, and the node that it makes of a worker, its swarm and a service.
pub mod Run
use rust_chain.Prelude.{ℕ, List, [], Result, ok, err, diverged, map_err, ◌>>=◌}
use rust_chain.Prelude.HashMap.{HashMap}
use rust_chain.Net.Types.{Types}
use rust_chain.Net.Behaviour.Settings.{Config, new_config}
use rust_chain.Net.Behaviour.{Behaviour, new_behaviour}
use rust_chain.Net.Worker.{Delivery}
use rust_chain.Net.Worker.Service.{PeerFullInfo, Service, new_service}

-- The types of peer_info at the info that a worker exchanges, `PeerFullInfo` of the user's.
abbrev pub full_types {ℓ} : Types {ℓ} → Type ℓ → Types {ℓ}
full_types W PeerInfo = record W { TInfo = PeerFullInfo PeerInfo; TPush = PeerFullInfo PeerInfo }

-- The types of the parts of a swarm that are libp2p's, and of the errors in building it.
pub record Parts {ℓ} : Type (ℓ + 1) where
  pub Gossip : Type ℓ
  pub Kademlia : Type ℓ
  pub Identify : Type ℓ
  pub Mdns : Type ℓ
  pub RequestResponse : Type ℓ
  pub NoiseError : Type ℓ
  pub BoxError : Type ℓ

-- `Error`, as far as `new` returns it.
pub data BuildError {ℓ} (NoiseError BoxError : Type ℓ) : Type ℓ where
  noise : NoiseError → BuildError NoiseError BoxError
  build : BoxError → BuildError NoiseError BoxError

-- The struct `Behaviour`, which is the behaviour of the swarm.
pub record SwarmBehaviour {ℓ} (W : Types {ℓ}) (P : Parts {ℓ}) : Type ℓ where
  pub gossipsub : P.Gossip
  pub kademlia : P.Kademlia
  pub identify : P.Identify
  pub peer_info : Behaviour W
  pub mdns : P.Mdns
  pub request_response : P.RequestResponse

-- The libraries that `new` calls: the new identity, the transports, the parts of the swarm with their
-- errors, and the defaults of the lists of addresses. `protocol` makes a name of a literal.
pub record Setup {ℓ} (W : Types {ℓ}) (P : Parts {ℓ}) : Type ℓ where
  pub key : W.Key
  pub from_public_key : W.Key → W.PeerId
  pub with_tcp : Result (Unit {0}) P.NoiseError
  pub new_gossipsub : W.Key → Result P.Gossip P.BoxError
  pub new_kademlia : W.PeerId → P.Kademlia
  pub new_identify : W.Text → W.Key → P.Identify
  pub new_mdns : W.PeerId → Result P.Mdns P.BoxError
  pub new_request_response : W.Protocol → P.RequestResponse
  pub agent_version : W.Text
  pub blocknet_version : W.Text
  pub peer_info_protocol : W.Protocol
  pub peer_info_push_protocol : W.Protocol
  pub request_response_protocol : W.Protocol
  pub no_listen : W.Listen
  pub no_external : W.External

-- `Worker`, with the whole behaviour of its swarm, with what it shares with its services, and with
-- the sends that the channels took.
pub record Node {ℓ} (W : Types {ℓ}) (P : Parts {ℓ}) (PeerInfo Sender Hash : Type ℓ) : Type ℓ where
  pub swarm : SwarmBehaviour (full_types W PeerInfo) P
  pub shared : Service W.PeerId PeerInfo
  pub broadcast_listen_senders : HashMap Hash (W.Text × List Sender)
  pub delivered : List (Sender × Delivery W.PeerId W.Text)

module _ {ℓ} {W : Types {ℓ}} {P : Parts {ℓ}} {PeerInfo : Type ℓ} (setup : Setup W P) where
  -- The closure of `with_behaviour`.
  unfoldable pub new_swarm : PeerInfo → Result (SwarmBehaviour (full_types W PeerInfo) P) P.BoxError
  unfolding new_config new_behaviour
  new_swarm local_info = do
    let peer_id = setup.from_public_key setup.key
    gossipsub ← setup.new_gossipsub setup.key
    mdns ← setup.new_mdns peer_id
    ok (record {
      gossipsub = gossipsub;
      kademlia = setup.new_kademlia peer_id;
      identify = setup.new_identify setup.blocknet_version setup.key;
      peer_info =
          new_behaviour
            (new_config setup.agent_version setup.blocknet_version setup.key
              setup.peer_info_protocol setup.peer_info_push_protocol)
            (record { info = local_info }) setup.no_listen setup.no_external;
      mdns = mdns;
      request_response = setup.new_request_response setup.request_response_protocol;
    })

  -- `Worker::new`.
  unfoldable pub new_worker :
      {Sender Hash : Type ℓ}
      → PeerInfo
      → Result (Node W P PeerInfo Sender Hash) (BuildError P.NoiseError P.BoxError)
  unfolding new_swarm new_service
  new_worker local_info = do
    _ ← map_err noise setup.with_tcp
    swarm ← map_err build (new_swarm local_info)
    ok (record {
      swarm = swarm;
      shared = new_service local_info;
      broadcast_listen_senders = [];
      delivered = [];
    })

-- `Worker::service`: a clone shares the locks.
abbrev pub service_of {ℓ} :
    {W : Types {ℓ}} {P : Parts {ℓ}} {PeerInfo Sender Hash : Type ℓ}
    → Node W P PeerInfo Sender Hash
    → Service W.PeerId PeerInfo
service_of node = node.shared
