-- ===== src/Client/TransportState.antt =====
-- The state machine of the client's data-plane route, pkg/client/transportstate.go, and the
-- transport that a connection stores for it, `connectionTransport` of pkg/client/client.go. What
-- `transitionTransportWithKind` logs is left out.
pub mod Routes
use ntwire.Base.{
  min, max, ℕ, zero, suc, ◌+◌, ◌-◌, ◌*◌, ◌/◌, ◌%◌, ◌^◌, ◌≤◌, ◌<◌, String, ◌≡◌, refl, sym, ap, subst,
  ◌∙◌, ◌≢◌, ◌↔◌, ◌⊎◌, inl, inr, ite, Bool, true, false, not, ◌&&◌, ◌||◌, Option, none, some, Memᴰ,
  List, [], ◌∷◌, ◌++◌, map, append_assoc, append-nil, arith, dec_lt, dec_le, ℕ_discrete, length,
  take, drop, length-append, take-append-drop, length-take, length-drop, take-length-append,
  drop-length-append, count, count-append, bit, Memᴰ-append_right, Map, tally, lookup, delete,
  insert, lookup-delete, lookup-insert, get_or, has, IsMap, delete-IsMap, insert-IsMap,
  delete_absent, tally-delete, length-delete, tally-insert_absent, tally-insert_present, bit-has-le,
  lookup-head, tally-delete-le, length-delete-le, length-insert-le, tally-insert-le, tally_all,
  length-insert_absent, length-le-insert, ◌>>=◌, ◌>>◌, guard, ltb, leb, ◌==◌, if◌then◌else◌,
  Bool-cases, Option-cases, string_discrete, test,
}

pub data TransportState : Type 0 where
  stopped direct direct_via_relay_reflector wss_fallback wss_relay udp_relay : TransportState

pub data TransportTransition : Type 0 where
  udp_relay_established direct_established udp_relay_lost direct_lost control_reconnected shutdown :
      TransportTransition

pub data ConnectionTransport : Type 0 where
  transport_unknown transport_udp_direct transport_wss_fallback transport_wss_relay
        transport_udp_relay transport_udp_relay_reflector :
      ConnectionTransport

unfoldable pub initial_transport_state : Bool → String → TransportState
initial_transport_state use_ws udp =
    if not use_ws
    then direct
    else if not (test (string_discrete udp ""))
    then wss_fallback
    else wss_relay

-- the step down when the direct path is lost
abbrev pub below_direct : Bool → TransportState
below_direct true = udp_relay
below_direct false = wss_relay

unfoldable pub next_transport_state : TransportState → TransportTransition → Bool → TransportState
next_transport_state current shutdown relay_available = stopped
next_transport_state current control_reconnected relay_available = current
next_transport_state wss_relay udp_relay_established relay_available = udp_relay
next_transport_state current udp_relay_established relay_available = current
next_transport_state wss_relay direct_established relay_available = direct_via_relay_reflector
next_transport_state udp_relay direct_established relay_available = direct_via_relay_reflector
next_transport_state current direct_established relay_available = current
next_transport_state udp_relay udp_relay_lost relay_available = wss_relay
next_transport_state current udp_relay_lost relay_available = current
next_transport_state direct direct_lost relay_available = below_direct relay_available
next_transport_state direct_via_relay_reflector direct_lost relay_available =
    below_direct relay_available
next_transport_state current direct_lost relay_available = current

unfoldable pub connection_transport : TransportState → ConnectionTransport
connection_transport direct = transport_udp_direct
connection_transport direct_via_relay_reflector = transport_udp_relay_reflector
connection_transport wss_fallback = transport_wss_fallback
connection_transport wss_relay = transport_wss_relay
connection_transport udp_relay = transport_udp_relay
connection_transport stopped = transport_unknown

unfoldable pub transport_state_from_connection : ConnectionTransport → TransportState
transport_state_from_connection transport_udp_direct = direct
transport_state_from_connection transport_udp_relay_reflector = direct_via_relay_reflector
transport_state_from_connection transport_wss_fallback = wss_fallback
transport_state_from_connection transport_wss_relay = wss_relay
transport_state_from_connection transport_udp_relay = udp_relay
transport_state_from_connection transport_unknown = stopped

abbrev pub is_udp_relay : TransportState → Bool
is_udp_relay udp_relay = true
is_udp_relay stopped = false
is_udp_relay direct = false
is_udp_relay direct_via_relay_reflector = false
is_udp_relay wss_fallback = false
is_udp_relay wss_relay = false

-- c.transport.Swap: the connection's transport after a transition
unfoldable pub transition_transport : ConnectionTransport → TransportState → ConnectionTransport
transition_transport previous next = connection_transport next

unfoldable pub preserve_transport_on_reconnect : ConnectionTransport → ConnectionTransport
preserve_transport_on_reconnect transport =
    let current = transport_state_from_connection transport in
    transition_transport transport
      (next_transport_state current control_reconnected (is_udp_relay current))

-- The route after events, each with whether a relay is available: directupgrade.go computes each
-- state from the one before and stores its transport.
unfoldable pub route_after : TransportState → List (TransportTransition × Bool) → TransportState
route_after state [] = state
route_after state ((event, relay_available) ∷ events) =
    route_after (next_transport_state state event relay_available) events
