-- ===== src/Net/Node/Run.antt =====
-- A node (blocknet/src/libp2p/mod.rs) over the calls that its parts get, one after the other.
pub mod Local
use rust_chain.Prelude.{Option, none, some, List, [], ◌∷◌, ◌⊎◌}
use rust_chain.Prelude.Eq.{Eq}
use rust_chain.Net.Types.{Types}
use rust_chain.Net.Handler.{Told, Runtime, Handler}
use rust_chain.Net.Handler.Run.{note}
use rust_chain.Net.Behaviour.{
  Behaviour, Addresses, FromSwarm, handle_established_connection, on_connection_handler_event,
  on_swarm_event, poll,
}
use rust_chain.Net.Worker.{ActionItem, SwarmEvent, Libraries, Worker, step}
use rust_chain.Net.Worker.Service.Shared.{Call, call}
use rust_chain.Net.Node.{Parts, Node, full_types}

-- A call of a service, a step of the worker, or what libp2p calls of the peer_info behaviour: an event
-- of the swarm, a new connection, what a handler told, and a poll.
pub data Input {ℓ} (W : Types {ℓ}) (P : Parts {ℓ})
    (PeerInfo Sender Hash SendError GossipError : Type ℓ) : Type ℓ where
  service_call : Call PeerInfo → Input W P PeerInfo Sender Hash SendError GossipError
  worker_step :
      Libraries W.Text Sender Hash P.Gossip SendError GossipError
      → ActionItem W.Text Sender ⊎ SwarmEvent W.PeerId Hash
      → Input W P PeerInfo Sender Hash SendError GossipError
  swarm_event :
      Addresses (full_types W PeerInfo)
      → FromSwarm (full_types W PeerInfo)
      → Input W P PeerInfo Sender Hash SendError GossipError
  connection :
      Addresses (full_types W PeerInfo)
      → Runtime (full_types W PeerInfo)
      → W.PeerId
      → Input W P PeerInfo Sender Hash SendError GossipError
  handler_told :
      W.PeerId → Told (full_types W PeerInfo) → Input W P PeerInfo Sender Hash SendError GossipError
  swarm_polled : Input W P PeerInfo Sender Hash SendError GossipError

module _ {ℓ} {W : Types {ℓ}} {P : Parts {ℓ}} {PeerInfo Sender Hash : Type ℓ} where
  -- The part of a node that `step` uses, and the node with that part as a step leaves it.
  abbrev pub worker_of : Node W P PeerInfo Sender Hash → Worker W.PeerId W.Text Sender Hash P.Gossip
  worker_of node = record {
    gossip = node.swarm.gossipsub;
    broadcast_listen_senders = node.broadcast_listen_senders;
    delivered = node.delivered;
  }

  abbrev pub put_worker :
      Node W P PeerInfo Sender Hash
      → Worker W.PeerId W.Text Sender Hash P.Gossip
      → Node W P PeerInfo Sender Hash
  put_worker node w = record node {
    swarm = record node.swarm { gossipsub = w.gossip };
    broadcast_listen_senders = w.broadcast_listen_senders;
    delivered = w.delivered;
  }

  abbrev pub put_peer_info :
      Node W P PeerInfo Sender Hash
      → Behaviour (full_types W PeerInfo)
      → Node W P PeerInfo Sender Hash
  put_peer_info node b = record node { swarm = record node.swarm { peer_info = b } }

module _ {ℓ} {W : Types {ℓ}} {P : Parts {ℓ}} {PeerInfo Sender Hash SendError GossipError : Type ℓ}
    ⦃eq_peer : Eq W.PeerId⦄ ⦃eq_connection : Eq W.ConnectionId⦄ ⦃eq_hash : Eq Hash⦄ where
  -- The handler that is made, if the input is a connection, and the node that is left.
  unfoldable pub node_step :
      Node W P PeerInfo Sender Hash
      → Input W P PeerInfo Sender Hash SendError GossipError
      → Option (Handler (full_types W PeerInfo)) × Node W P PeerInfo Sender Hash
  unfolding call step on_swarm_event handle_established_connection on_connection_handler_event poll
  node_step node (service_call c) = (none, record node { shared = (call node.shared c).1 })
  node_step node (worker_step lib input) =
      (none, put_worker node (step lib (worker_of node) input).1)
  node_step node (swarm_event lib event) =
      (none, put_peer_info node (on_swarm_event lib node.swarm.peer_info event))
  node_step node (connection lib runtime peer) =
      (some (handle_established_connection lib runtime node.swarm.peer_info peer), node)
  node_step node (handler_told peer told) =
      (none, put_peer_info node (on_connection_handler_event node.swarm.peer_info peer told))
  node_step node swarm_polled = (none, put_peer_info node (poll node.swarm.peer_info).1)

  -- The handlers that are made, in their order, and the node that is left.
  unfoldable pub run_node :
      Node W P PeerInfo Sender Hash
      → List (Input W P PeerInfo Sender Hash SendError GossipError)
      → List (Handler (full_types W PeerInfo)) × Node W P PeerInfo Sender Hash
  unfolding node_step
  run_node node [] = ([], node)
  run_node node (input ∷ inputs) =
      let (made, node') = node_step node input in
      let (later, node'') = run_node node' inputs in (note made later, node'')
