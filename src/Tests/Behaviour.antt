-- ===== src/Tests/Behaviour.antt =====
-- Instances over blocknet/src/libp2p/peer_info/behaviour.rs: every name is a number.
use rust_chain.Prelude.{true, false, ◌+◌, some, none, List, [], ◌∷◌, ◌++◌, ◌≡◌, filter, map}
use rust_chain.Prelude.Eq.{nat_eq}
use rust_chain.Net.Handler.{push_info}
use rust_chain.Net.Handler.Run.{run}
use rust_chain.Net.Behaviour.Exchange.{forward, reports, last_received, forward-handler}
use rust_chain.Tests.Handler.{types, runtime, infos, calls}
use rust_chain.Net.Behaviour.Settings.{new_config, with_push_listen_addr_updates}
use rust_chain.Net.Behaviour.{
  Behaviour, Addresses, FromSwarm, connection_established, connection_closed, endpoint_address,
  listener, notify_handler, push, is_connected, handle_established_connection, generate_event, sent,
}
use rust_chain.Net.Behaviour.Events.{push_lem}
use rust_chain.Net.Behaviour.Connections.{
  address_of, on_swarm_events, tracked_all, address_of-on_swarm_events,
}

abbrev no_addresses : Addresses types
no_addresses = record {
  on_listen = λ event n. (true, n + 1);
  on_external = λ event n. (false, n);
  listen_list = λ n. n ∷ [];
  external_list = λ n. [];
}

-- Peer 1 has the connection 10.
abbrev behaviour : Behaviour types
behaviour = record {
  config = with_push_listen_addr_updates (new_config {W = types} 0 1 2 3 4) true;
  connected = (1, (10, 500) ∷ []) ∷ [];
  our_observed_addresses = [];
  events = generate_event (sent 1) ∷ generate_event (sent 2) ∷ [];
  listen_addresses = 0;
  external_addresses = 0;
  local_info = 7;
}

abbrev happenings : List (FromSwarm types)
happenings = connection_established 2 20 (listener 7 8) ∷ connection_closed 1 10 0 ∷ []

push_lem_example : push behaviour (1 ∷ 2 ∷ []) ≡ record behaviour {
  events =
      behaviour.events
      ++ map (λ p. notify_handler p none push_info) (filter (is_connected behaviour) (1 ∷ 2 ∷ []));
}
push_lem_example = push_lem behaviour (1 ∷ 2 ∷ [])

address_of-on_swarm_events_example :
    address_of (on_swarm_events no_addresses behaviour happenings) 2 20 ≡ some 8
unfolding tracked_all endpoint_address
address_of-on_swarm_events_example =
    address_of-on_swarm_events no_addresses behaviour happenings 2 20

forward-handler_example :
    let (emitted, h) =
      run infos (handle_established_connection no_addresses runtime behaviour 1) calls in
    ((forward behaviour 1 emitted).events
      ≡ behaviour.events ++ map generate_event (reports {W = types} 1 emitted))
    × (last_received none (reports {W = types} 1 emitted) ≡ h.remote_info)
forward-handler_example = forward-handler no_addresses infos runtime behaviour 1 calls
