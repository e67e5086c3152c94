-- ===== src/Tests/Routes.antt =====
-- Events of a client's connection.
use ntwire.Base.{Bool, true, false, List, [], ◌∷◌}
use ntwire.Client.TransportState.{
  TransportTransition, udp_relay_established, direct_established, direct_lost,
  initial_transport_state, route_after,
}
use ntwire.Client.TransportState.Routes.{Evidence, route_after-Evidence}

abbrev upgrades : List (TransportTransition × Bool)
upgrades = (udp_relay_established, false) ∷ (direct_established, true) ∷ (direct_lost, true) ∷ []

route_after-Evidence_example :
    Evidence (route_after (initial_transport_state true "") upgrades) upgrades
route_after-Evidence_example = route_after-Evidence true "" upgrades
