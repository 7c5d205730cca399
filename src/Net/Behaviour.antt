-- ===== src/Net/Behaviour.antt =====
-- blocknet/src/libp2p/peer_info/behaviour.rs: the `Behaviour` that exchanges peer infos.
pub mod Settings
pub mod Events
pub mod Connections
pub mod Exchange
use rust_chain.Prelude.{
  ℕ, Bool, true, false, Option, none, some, List, [], ◌∷◌, ◌++◌, ltb, ◌||◌, ◌&&◌, if◌then◌else◌,
  map,
}
use mathlib.Core.Option
use mathlib.Core.List.{flat_map}
use rust_chain.Prelude.Eq.{Eq}
use rust_chain.Prelude.HashMap
use rust_chain.Prelude.HashMap.{HashMap}
use rust_chain.Net.Types.{Types}
use rust_chain.Net.Protocol.{StreamUpgradeError}
use rust_chain.Net.Handler.{
  InEvent, addresses_changed, push_info, Told, identified, identification, identification_pushed,
  identification_error, Runtime, Handler, new_handler,
}
use rust_chain.Net.Behaviour.Settings.{Config}

-- `ConnectedPoint`.
pub data ConnectedPoint {ℓ} (Address : Type ℓ) : Type ℓ where
  dialer : Address → ConnectedPoint Address
  listener : Address → Address → ConnectedPoint Address

-- `FromSwarm`, as far as the behaviour looks at it: a connection's peer, id and endpoint; a closed
-- one's peer, id and the number of connections that remain with the peer. Its other events, such as
-- `AddressChange` of a connection, are ignored alike, but for the lists of addresses.
pub data FromSwarm {ℓ} (W : Types {ℓ}) : Type ℓ where
  connection_established : W.PeerId → W.ConnectionId → ConnectedPoint W.Address → FromSwarm W
  connection_closed : W.PeerId → W.ConnectionId → ℕ → FromSwarm W
  other_change : W.SwarmChange → FromSwarm W

-- What the code uses of libp2p's `ListenAddresses` and `ExternalAddresses`: whether an event of the
-- swarm changes them and what they are after it, and the addresses that are kept.
pub record Addresses {ℓ} (W : Types {ℓ}) : Type ℓ where
  pub on_listen : FromSwarm W → W.Listen → Bool × W.Listen
  pub on_external : FromSwarm W → W.External → Bool × W.External
  pub listen_list : W.Listen → List W.Address
  pub external_list : W.External → List W.Address

-- `Event`.
pub data Event {ℓ} (W : Types {ℓ}) : Type ℓ where
  received : W.PeerId → W.TInfo → Event W
  sent : W.PeerId → Event W
  pushed : W.PeerId → W.TPush → Event W
  failed : W.PeerId → StreamUpgradeError W.E W.IoError → Event W

-- `ToSwarm`, as far as the behaviour makes it. A notification names a connection, or none for any.
pub data ToSwarm {ℓ} (W : Types {ℓ}) : Type ℓ where
  notify_handler : W.PeerId → Option W.ConnectionId → InEvent W.Address → ToSwarm W
  generate_event : Event W → ToSwarm W

pub record Behaviour {ℓ} (W : Types {ℓ}) : Type ℓ where
  pub config : Config W
  pub connected : HashMap W.PeerId (HashMap W.ConnectionId W.Address)
  pub our_observed_addresses : HashMap W.ConnectionId W.Address
  pub events : List (ToSwarm W)
  pub listen_addresses : W.Listen
  pub external_addresses : W.External
  pub local_info : W.TInfo

unfoldable pub endpoint_address {ℓ} : {Address : Type ℓ} → ConnectedPoint Address → Address
endpoint_address (dialer address) = address
endpoint_address (listener local send_back) = send_back

module _ {ℓ} {W : Types {ℓ}} where
  -- `Behaviour::new`, with the defaults of the addresses.
  unfoldable pub new_behaviour : Config W → W.TInfo → W.Listen → W.External → Behaviour W
  new_behaviour config local_info listen external = record {
    local_info = local_info;
    config = config;
    connected = [];
    our_observed_addresses = [];
    events = [];
    listen_addresses = listen;
    external_addresses = external;
  }

  unfoldable pub on_connection_handler_event : Behaviour W → W.PeerId → Told W → Behaviour W
  on_connection_handler_event b peer (identified info) = record b {
    events = b.events ++ generate_event (received peer info) ∷ [];
  }
  on_connection_handler_event b peer identification = record b {
    events = b.events ++ generate_event (sent peer) ∷ [];
  }
  on_connection_handler_event b peer (identification_pushed info) = record b {
    events = b.events ++ generate_event (pushed peer info) ∷ [];
  }
  on_connection_handler_event b peer (identification_error error) = record b {
    events = b.events ++ generate_event (failed peer error) ∷ [];
  }

  -- `poll`: none is `Poll::Pending`.
  unfoldable pub poll : Behaviour W → Option (ToSwarm W) × Behaviour W
  poll b = elim b.events [
    | [] ↦ (none, b)
    | event ∷ events ↦ (some event, record b { events = events })
  ]

module _ {ℓ} {W : Types {ℓ}} ⦃eq_peer : Eq W.PeerId⦄ ⦃eq_connection : Eq W.ConnectionId⦄ where
  -- `self.connected.contains_key(&p)`.
  unfoldable pub is_connected : Behaviour W → W.PeerId → Bool
  is_connected b peer = elim (HashMap.get peer b.connected) [ some _ ↦ true | none ↦ false ]

  unfoldable pub push : Behaviour W → List W.PeerId → Behaviour W
  unfolding is_connected
  push b [] = b
  push b (peer ∷ peers) = elim (is_connected b peer) [
    | true ↦ push (record b { events = b.events ++ notify_handler peer none push_info ∷ [] }) peers
    | false ↦ push b peers
  ]

  unfoldable pub on_connection_established :
      W.PeerId → W.ConnectionId → ConnectedPoint W.Address → Behaviour W → Behaviour W
  unfolding endpoint_address
  on_connection_established peer connection endpoint b =
      let connections = Option.get_or (HashMap.get peer b.connected) [] in
      record b {
        connected =
            HashMap.insert peer (HashMap.insert connection (endpoint_address endpoint) connections)
              b.connected;
      }

module _ {ℓ} {W : Types {ℓ}} ⦃eq_peer : Eq W.PeerId⦄ ⦃eq_connection : Eq W.ConnectionId⦄ where
  -- The last match of `on_swarm_event`.
  unfoldable pub track_connection : FromSwarm W → Behaviour W → Behaviour W
  unfolding on_connection_established
  track_connection (connection_established peer connection endpoint) b =
      on_connection_established peer connection endpoint b
  track_connection (connection_closed peer connection remaining) b = record b {
    connected =
        if ltb remaining 1
        then HashMap.remove peer b.connected
        else HashMap.modify peer (HashMap.remove connection) b.connected;
    our_observed_addresses = HashMap.remove connection b.our_observed_addresses;
  }
  track_connection (other_change change) b = b

  module _ (lib : Addresses W) where
    -- `all_addresses`; the set is the list of its members, some maybe more than once.
    unfoldable pub all_addresses : Behaviour W → List W.Address
    all_addresses b = lib.listen_list b.listen_addresses ++ lib.external_list b.external_addresses

    -- `handle_established_inbound_connection` and `handle_established_outbound_connection`, which do the
    -- same with the peer of the connection: its handler.
    unfoldable pub handle_established_connection : Runtime W → Behaviour W → W.PeerId → Handler W
    unfolding all_addresses new_handler
    handle_established_connection runtime b peer =
        new_handler runtime b.config.interval peer (all_addresses b) b.local_info
          b.config.protocol_name b.config.push_protocol_name

    -- `change_events`.
    unfoldable pub change_events : Behaviour W → List (ToSwarm W)
    unfolding all_addresses
    change_events b =
        flat_map
          (λ entry.
            map (λ c. notify_handler entry.0 (some c.0) (addresses_changed (all_addresses b)))
              entry.1)
          b.connected

    -- `push_events`.
    unfoldable pub push_events : Behaviour W → List (ToSwarm W)
    push_events b = map (λ entry. notify_handler entry.0 none push_info) b.connected

    unfoldable pub on_swarm_event : Behaviour W → FromSwarm W → Behaviour W
    unfolding track_connection change_events push_events
    on_swarm_event b event =
        let (listen_changed, listen) = lib.on_listen event b.listen_addresses in
        let (external_changed, external) = lib.on_external event b.external_addresses in
        let seen = record b { listen_addresses = listen; external_addresses = external } in
        let told = if listen_changed || external_changed then change_events seen else [] in
        let asked =
          if listen_changed && b.config.push_listen_addr_updates then push_events seen else [] in
        track_connection event (record seen { events = (b.events ++ told) ++ asked })
