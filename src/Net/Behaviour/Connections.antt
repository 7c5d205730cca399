-- ===== src/Net/Behaviour/Connections.antt =====
-- Which addresses `Behaviour` keeps (blocknet/src/libp2p/peer_info/behaviour.rs).
use rust_chain.Prelude.{
  inl, inr, [], ◌≡◌, refl, ltb, Option, none, some, arith, if◌then◌else◌, ◌&&◌, Option-cases, ◌||◌,
  ◌∷◌, List, ◌∙◌, ap,
}
use rust_chain.Prelude.Eq.{Eq, ◌=?◌}
use rust_chain.Prelude.HashMap
use rust_chain.Net.Types.{Types}
use rust_chain.Net.Behaviour.{
  Behaviour, Addresses, FromSwarm, connection_established, connection_closed, other_change,
  ConnectedPoint, track_connection, on_connection_established, endpoint_address, on_swarm_event,
}

module _ {ℓ} {W : Types {ℓ}} ⦃eq_peer : Eq W.PeerId⦄ ⦃eq_connection : Eq W.ConnectionId⦄ where
  -- The address kept for a connection of a peer.
  unfoldable pub address_of : Behaviour W → W.PeerId → W.ConnectionId → Option W.Address
  address_of b peer connection = elim (HashMap.get peer b.connected) [
    | some connections ↦ HashMap.get connection connections
    | none ↦ none
  ]

  address_of-established :
      (b : Behaviour W) (peer q : W.PeerId) (connection c : W.ConnectionId)
      (endpoint : ConnectedPoint W.Address)
      → address_of (on_connection_established peer connection endpoint b) q c ≡ (
          if (peer =? q) && (connection =? c)
          then some (endpoint_address endpoint)
          else address_of b q c)
  unfolding address_of on_connection_established HashMap.get
  address_of-established b peer q connection c endpoint =
      elim (Option-cases (HashMap.get peer b.connected)) [
        | inl n ↦ ground (
          arith,
          HashMap.get-insert peer q (HashMap.insert connection (endpoint_address endpoint) [])
              b.connected,
          HashMap.get-insert connection c (endpoint_address endpoint) [],
          n,
          eq_peer.beq_iff peer q,
        )
        | inr (m, h) ↦ ground (
          arith,
          HashMap.get-insert peer q (HashMap.insert connection (endpoint_address endpoint) m)
              b.connected,
          HashMap.get-insert connection c (endpoint_address endpoint) m,
          h,
          eq_peer.beq_iff peer q,
        )
      ]

  address_of-closed_last :
      (b : Behaviour W) (peer q : W.PeerId) (c : W.ConnectionId)
      → address_of (record b { connected = HashMap.remove peer b.connected }) q c
        ≡ (if peer =? q then none else address_of b q c)
  unfolding address_of
  address_of-closed_last b peer q c = ground (arith, HashMap.get-remove peer q b.connected)

  address_of-closed_one :
      (b : Behaviour W) (peer q : W.PeerId) (connection c : W.ConnectionId)
      → address_of
          (record b { connected = HashMap.modify peer (HashMap.remove connection) b.connected })
          q
          c
        ≡ (if (peer =? q) && (connection =? c) then none else address_of b q c)
  unfolding address_of HashMap.get
  address_of-closed_one b peer q connection c = elim (Option-cases (HashMap.get q b.connected)) [
    | inl n ↦ ground (arith, n, HashMap.get-modify peer q (HashMap.remove connection) b.connected)
    | inr (m, h) ↦ ground (
      arith,
      h,
      HashMap.get-modify peer q (HashMap.remove connection) b.connected,
      HashMap.get-remove connection c m,
    )
  ]

module _ {ℓ} {W : Types {ℓ}} ⦃eq_peer : Eq W.PeerId⦄ ⦃eq_connection : Eq W.ConnectionId⦄ where
  -- What an event of the swarm makes of the address of a connection.
  unfoldable pub tracked :
      FromSwarm W → W.PeerId → W.ConnectionId → Option W.Address → Option W.Address
  tracked (connection_established peer connection endpoint) q c address =
      if (peer =? q) && (connection =? c) then some (endpoint_address endpoint) else address
  tracked (connection_closed peer connection remaining) q c address =
      if (peer =? q) && (ltb remaining 1 || (connection =? c)) then none else address
  tracked (other_change change) q c address = address

  unfoldable pub tracked_all :
      List (FromSwarm W) → W.PeerId → W.ConnectionId → Option W.Address → Option W.Address
  unfolding tracked
  tracked_all [] q c address = address
  tracked_all (event ∷ events) q c address = tracked_all events q c (tracked event q c address)

module _ {ℓ} {W : Types {ℓ}} ⦃eq_peer : Eq W.PeerId⦄ ⦃eq_connection : Eq W.ConnectionId⦄ where
  address_of-track_connection :
      (event : FromSwarm W) (b : Behaviour W) (q : W.PeerId) (c : W.ConnectionId)
      → address_of (track_connection event b) q c ≡ tracked event q c (address_of b q c)
  unfolding tracked track_connection address_of
  address_of-track_connection (connection_established peer connection endpoint) b q c =
      address_of-established b peer q connection c endpoint
  address_of-track_connection (connection_closed peer connection remaining) b q c =
      ground (arith, address_of-closed_last b peer q c, address_of-closed_one b peer q connection c)
  address_of-track_connection (other_change change) b q c = refl

  module _ (lib : Addresses W) where
    -- The events of the swarm, one after the other.
    unfoldable pub on_swarm_events : Behaviour W → List (FromSwarm W) → Behaviour W
    unfolding on_swarm_event
    on_swarm_events b [] = b
    on_swarm_events b (event ∷ events) = on_swarm_events (on_swarm_event lib b event) events

    -- After any events of the swarm the address kept for a connection of a peer is that of the last of
    -- these: its establishment, which gives its endpoint's address, and its closing or that of the
    -- peer's last connection, which leave none. No other event changes it, an address change of the
    -- connection (`FromSwarm::AddressChange`) included; before any of these it is what it was.
    pub address_of-on_swarm_events :
        (b : Behaviour W) (events : List (FromSwarm W)) (q : W.PeerId) (c : W.ConnectionId)
        → address_of (on_swarm_events b events) q c ≡ tracked_all events q c (address_of b q c)
    unfolding on_swarm_events tracked_all on_swarm_event address_of
    address_of-on_swarm_events b [] q c = refl
    address_of-on_swarm_events b (event ∷ events) q c =
        address_of-on_swarm_events (on_swarm_event lib b event) events q c
        ∙ ap (tracked_all events q c) (address_of-track_connection event _ q c)
