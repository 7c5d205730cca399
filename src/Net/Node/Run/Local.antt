-- ===== src/Net/Node/Run/Local.antt =====
-- Which info of the local peer a node (blocknet/src/libp2p/mod.rs) has, and what it gives its users.
use rust_chain.Prelude.{List, [], ◌∷◌, ◌≡◌, refl, ap, ◌∙◌, subst, All, arith, ok}
use rust_chain.Prelude.Eq.{Eq}
use rust_chain.Prelude.{returned}
use rust_chain.SyncExtra.{read_unwrap, share, expect}
use rust_chain.Net.Behaviour.Settings.{new_config}
use rust_chain.Net.Types.{Types}
use rust_chain.Net.Handler.{
  Told, Runtime, Handler, identified, identification, identification_pushed, identification_error,
  new_handler,
}
use rust_chain.Net.Handler.Run.{note}
use rust_chain.Net.Handler.Pushes.{All-note}
use rust_chain.Net.Behaviour.{
  Behaviour, Addresses, FromSwarm, connection_established, connection_closed, other_change,
  track_connection, handle_established_connection, on_connection_handler_event, on_swarm_event,
  poll, new_behaviour,
}
use rust_chain.Net.Worker.Silence.{step_silent}
use rust_chain.Net.Worker.Service.{new_service, local_info, peers}
use rust_chain.Net.Worker.Service.Shared.{
  Call, get_info, set_info, get_peers, call, call-new, last_info,
}
use rust_chain.Net.Node.{Parts, Setup, Node, full_types, new_swarm, new_worker, service_of}
use rust_chain.Net.Node.Run.{
  Input, service_call, worker_step, swarm_event, connection, handler_told, swarm_polled, node_step,
  run_node,
}

module _ {ℓ} {W : Types {ℓ}} ⦃eq_peer : Eq W.PeerId⦄ ⦃eq_connection : Eq W.ConnectionId⦄ where
  on_swarm_event_local :
      (lib : Addresses W) (b : Behaviour W) (event : FromSwarm W)
      → (on_swarm_event lib b event).local_info ≡ b.local_info
  unfolding on_swarm_event track_connection
  on_swarm_event_local lib b (connection_established peer c endpoint) = refl
  on_swarm_event_local lib b (connection_closed peer c remaining) = refl
  on_swarm_event_local lib b (other_change change) = refl

module _ {ℓ} {W : Types {ℓ}} where
  told_local :
      (b : Behaviour W) (peer : W.PeerId) (told : Told W)
      → (on_connection_handler_event b peer told).local_info ≡ b.local_info
  unfolding on_connection_handler_event
  told_local b peer (identified info) = refl
  told_local b peer identification = refl
  told_local b peer (identification_pushed push) = refl
  told_local b peer (identification_error e) = refl

  poll_local : (b : Behaviour W) → (poll b).1.local_info ≡ b.local_info
  unfolding poll
  poll_local b = ground arith

handler_local {ℓ} :
    {W : Types {ℓ}} ⦃eq_peer : Eq W.PeerId⦄ ⦃eq_connection : Eq W.ConnectionId⦄ (lib : Addresses W)
    (runtime : Runtime W) (b : Behaviour W) (peer : W.PeerId)
    → (handle_established_connection lib runtime b peer).local_info ≡ b.local_info
unfolding handle_established_connection new_handler
handler_local lib runtime b peer = refl

-- The calls of services among the inputs of a node.
unfoldable pub calls_of {ℓ} :
    {W : Types {ℓ}} {P : Parts {ℓ}} {PeerInfo Sender Hash SendError GossipError : Type ℓ}
    → List (Input W P PeerInfo Sender Hash SendError GossipError)
    → List (Call PeerInfo)
calls_of [] = []
calls_of (service_call c ∷ inputs) = c ∷ calls_of inputs
calls_of (_ ∷ inputs) = calls_of inputs

-- The behaviour has the first info, the service the current one, and nothing was delivered.
record IsStale {ℓ} {W : Types {ℓ}} {P : Parts {ℓ}} {PeerInfo Sender Hash : Type ℓ}
    (info current : PeerInfo) (node : Node W P PeerInfo Sender Hash) : Type ℓ where
  pub kept : node.swarm.peer_info.local_info ≡ record { info = info }
  pub told : node.shared ≡ new_service current
  pub silent : node.delivered ≡ []

-- A handler has the info.
abbrev pub IsFirst {ℓ} :
    (W : Types {ℓ}) {PeerInfo : Type ℓ} → PeerInfo → Handler (full_types W PeerInfo) → Type ℓ
IsFirst W info h = h.local_info ≡ record { info = info }

module _ {ℓ} {W : Types {ℓ}} {P : Parts {ℓ}}
    {PeerInfo Sender Hash SendError GossipError : Type ℓ} where
  abbrev current_after : PeerInfo → Input W P PeerInfo Sender Hash SendError GossipError → PeerInfo
  current_after current (service_call c) = last_info current (c ∷ [])
  current_after current _ = current

  current_lem :
      (current : PeerInfo) (input : Input W P PeerInfo Sender Hash SendError GossipError)
      (inputs : List (Input W P PeerInfo Sender Hash SendError GossipError))
      → last_info (current_after current input) (calls_of inputs)
        ≡ last_info current (calls_of (input ∷ inputs))
  unfolding last_info calls_of
  current_lem current (service_call get_info) inputs = refl
  current_lem current (service_call (set_info i)) inputs = refl
  current_lem current (service_call get_peers) inputs = refl
  current_lem current (worker_step lib input) inputs = refl
  current_lem current (swarm_event lib event) inputs = refl
  current_lem current (connection lib runtime peer) inputs = refl
  current_lem current (handler_told peer told) inputs = refl
  current_lem current swarm_polled inputs = refl

-- The node that `Worker::new` makes of the parts that can fail.
abbrev first_node {ℓ} :
    {W : Types {ℓ}} {P : Parts {ℓ}} {PeerInfo Sender Hash : Type ℓ}
    → Setup W P
    → PeerInfo
    → P.Gossip
    → P.Mdns
    → Node W P PeerInfo Sender Hash
first_node setup info gossip mdns = record {
  swarm = record {
    gossipsub = gossip;
    kademlia = setup.new_kademlia (setup.from_public_key setup.key);
    identify = setup.new_identify setup.blocknet_version setup.key;
    peer_info =
        new_behaviour
          (new_config setup.agent_version setup.blocknet_version setup.key setup.peer_info_protocol
            setup.peer_info_push_protocol)
          (record { info = info }) setup.no_listen setup.no_external;
    mdns = mdns;
    request_response = setup.new_request_response setup.request_response_protocol;
  };
  shared = new_service info;
  broadcast_listen_senders = [];
  delivered = [];
}

module _ {ℓ} {W : Types {ℓ}} {P : Parts {ℓ}} {PeerInfo Sender Hash SendError GossipError : Type ℓ}
    ⦃eq_peer : Eq W.PeerId⦄ ⦃eq_connection : Eq W.ConnectionId⦄ ⦃eq_hash : Eq Hash⦄
    (info : PeerInfo) where
  node_step-IsStale :
      (current : PeerInfo) (node : Node W P PeerInfo Sender Hash)
      (input : Input W P PeerInfo Sender Hash SendError GossipError)
      → IsStale info current node
      → All (IsFirst W info) (note (node_step node input).0 [])
        × IsStale info (current_after current input) (node_step node input).1
  unfolding node_step
  node_step-IsStale current node (service_call c) q = (
    tt,
    record {
      kept = q.kept;
      told = ap (λ s. (call s c).1) q.told ∙ call-new current c;
      silent = q.silent;
    },
  )
  node_step-IsStale current node (worker_step lib input) q =
      (tt, record { kept = q.kept; told = q.told; silent = step_silent lib _ input ∙ q.silent })
  node_step-IsStale current node (swarm_event lib event) q = (
    tt,
    record {
      kept = on_swarm_event_local lib node.swarm.peer_info event ∙ q.kept;
      told = q.told;
      silent = q.silent;
    },
  )
  node_step-IsStale current node (connection lib runtime peer) q =
      ((handler_local lib runtime node.swarm.peer_info peer ∙ q.kept, tt), q)
  node_step-IsStale current node (handler_told peer told) q = (
    tt,
    record {
      kept = told_local node.swarm.peer_info peer told ∙ q.kept;
      told = q.told;
      silent = q.silent;
    },
  )
  node_step-IsStale current node swarm_polled q = (
    tt,
    record { kept = poll_local node.swarm.peer_info ∙ q.kept; told = q.told; silent = q.silent },
  )

  run_node-IsStale :
      (current : PeerInfo) (node : Node W P PeerInfo Sender Hash)
      (inputs : List (Input W P PeerInfo Sender Hash SendError GossipError))
      → IsStale info current node
      → All (IsFirst W info) (run_node node inputs).0
        × IsStale info (last_info current (calls_of inputs)) (run_node node inputs).1
  unfolding run_node last_info calls_of
  run_node-IsStale current node [] q = (tt, q)
  run_node-IsStale current node (input ∷ inputs) q =
      let now = node_step-IsStale current node input q in
      let later =
        run_node-IsStale (current_after current input) (node_step node input).1 inputs now.1 in
      (
        All-note (IsFirst W info) _ _ now.0 later.0,
        subst (λ c. IsStale info c (run_node (node_step node input).1 inputs).1)
            (current_lem current input inputs) later.1,
      )

  -- When the transports and the parts of the swarm can be made, `Worker::new` makes a node; and then,
  -- whatever calls its services, its worker and its behaviour get: every handler that is made of a
  -- connection has the info given to `new`; the services answer the info that was set last, and no
  -- peers; and nothing is delivered to a listener.
  pub run_node-new_worker :
      (setup : Setup W P) (gossip : P.Gossip) (mdns : P.Mdns)
      → setup.with_tcp ≡ ok tt
      → setup.new_gossipsub setup.key ≡ ok gossip
      → setup.new_mdns (setup.from_public_key setup.key) ≡ ok mdns
      → (inputs : List (Input W P PeerInfo Sender Hash SendError GossipError))
      → (node : Node W P PeerInfo Sender Hash) × (new_worker setup info ≡ ok node)
        × (let (made, node') = run_node node inputs in
            All (IsFirst W info) made
            × (local_info (service_of node') ≡ returned (last_info info (calls_of inputs)))
            × (peers (service_of node') ≡ returned [])
            × (node'.delivered ≡ []))
  unfolding new_worker new_swarm new_behaviour local_info peers new_service read_unwrap share expect
  run_node-new_worker setup gossip mdns tcp g m inputs =
      let node = first_node setup info gossip mdns in
      let (made, q) =
        run_node-IsStale info node inputs (record { kept = refl; told = refl; silent = refl }) in
      (node, rw (tcp, g, m, new_worker), (made, ap local_info q.told, ap peers q.told, q.silent))
