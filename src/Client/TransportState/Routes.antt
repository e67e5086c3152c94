-- ===== src/Client/TransportState/Routes.antt =====
-- The routes that a connection can have, pkg/client/transportstate.go.
use ntwire.Base.{
  String, ◌≡◌, refl, sym, ap, subst, ◌∙◌, ◌⊎◌, inl, inr, Bool, true, false, not, List, [], ◌∷◌,
  if◌then◌else◌, string_discrete, test,
}
use ntwire.Client.TransportState.{
  TransportState, TransportTransition, stopped, direct, direct_via_relay_reflector, wss_fallback,
  wss_relay, udp_relay, udp_relay_established, direct_established, udp_relay_lost, direct_lost,
  control_reconnected, shutdown, initial_transport_state, next_transport_state,
  connection_transport, transport_state_from_connection, transition_transport,
  preserve_transport_on_reconnect, route_after,
}

-- A stored transport names the route that it was stored for.
transport_state_from_connection-connection_transport :
    (s : TransportState) → transport_state_from_connection (connection_transport s) ≡ s
unfolding transport_state_from_connection connection_transport
transport_state_from_connection-connection_transport stopped = refl
transport_state_from_connection-connection_transport direct = refl
transport_state_from_connection-connection_transport direct_via_relay_reflector = refl
transport_state_from_connection-connection_transport wss_fallback = refl
transport_state_from_connection-connection_transport wss_relay = refl
transport_state_from_connection-connection_transport udp_relay = refl

-- Renewing a session keeps the route of the connection, whichever it is: after any events, the
-- stored transport is what it was before the reconnect.
pub preserve_transport_on_reconnect-route_after :
    (use_ws : Bool) (udp : String) (events : List (TransportTransition × Bool))
    → preserve_transport_on_reconnect
        (connection_transport (route_after (initial_transport_state use_ws udp) events))
      ≡ connection_transport (route_after (initial_transport_state use_ws udp) events)
unfolding preserve_transport_on_reconnect transition_transport next_transport_state
preserve_transport_on_reconnect-route_after use_ws udp events = ap connection_transport (
    transport_state_from_connection-connection_transport
      (route_after (initial_transport_state use_ws udp) events))

-- an event that occurs, with or without a relay
abbrev pub Occurs : TransportTransition → List (TransportTransition × Bool) → Type 0
Occurs event [] = ⊥
Occurs event ((e, r) ∷ events) = (e ≡ event) ⊎ Occurs event events

-- a relay is available when the direct path is lost
abbrev pub StepsDown : List (TransportTransition × Bool) → Type 0
StepsDown [] = ⊥
StepsDown ((e, r) ∷ events) = ((e ≡ direct_lost) × (r ≡ true)) ⊎ StepsDown events

-- the evidence for the two upgraded routes
abbrev pub Evidence : TransportState → List (TransportTransition × Bool) → Type 0
Evidence direct_via_relay_reflector events = Occurs direct_established events
Evidence udp_relay events = Occurs udp_relay_established events ⊎ StepsDown events
Evidence stopped events = Occurs shutdown events
Evidence direct events = Unit
Evidence wss_fallback events = Unit
Evidence wss_relay events = Unit

step-Evidence :
    (s : TransportState) (e : TransportTransition) (r : Bool)
    → Evidence (next_transport_state s e r) ((e, r) ∷ []) ⊎ (next_transport_state s e r ≡ s)
unfolding next_transport_state
step-Evidence s shutdown r = inl (inl refl)
step-Evidence s control_reconnected r = inr refl
step-Evidence stopped udp_relay_established r = inr refl
step-Evidence direct udp_relay_established r = inr refl
step-Evidence direct_via_relay_reflector udp_relay_established r = inr refl
step-Evidence wss_fallback udp_relay_established r = inr refl
step-Evidence wss_relay udp_relay_established r = inl (inl (inl refl))
step-Evidence udp_relay udp_relay_established r = inr refl
step-Evidence stopped direct_established r = inr refl
step-Evidence direct direct_established r = inr refl
step-Evidence direct_via_relay_reflector direct_established r = inr refl
step-Evidence wss_fallback direct_established r = inr refl
step-Evidence wss_relay direct_established r = inl (inl refl)
step-Evidence udp_relay direct_established r = inl (inl refl)
step-Evidence stopped udp_relay_lost r = inr refl
step-Evidence direct udp_relay_lost r = inr refl
step-Evidence direct_via_relay_reflector udp_relay_lost r = inr refl
step-Evidence wss_fallback udp_relay_lost r = inr refl
step-Evidence wss_relay udp_relay_lost r = inr refl
step-Evidence udp_relay udp_relay_lost r = inl tt
step-Evidence stopped direct_lost r = inr refl
step-Evidence direct direct_lost true = inl (inr (inl (refl, refl)))
step-Evidence direct direct_lost false = inl tt
step-Evidence direct_via_relay_reflector direct_lost true = inl (inr (inl (refl, refl)))
step-Evidence direct_via_relay_reflector direct_lost false = inl tt
step-Evidence wss_fallback direct_lost r = inr refl
step-Evidence wss_relay direct_lost r = inr refl
step-Evidence udp_relay direct_lost r = inr refl

Evidence-later :
    (s : TransportState) (x : TransportTransition × Bool)
    (events : List (TransportTransition × Bool))
    → Evidence s events
    → Evidence s (x ∷ events)
Evidence-later stopped (e, r) events v = inr v
Evidence-later direct (e, r) events v = tt
Evidence-later direct_via_relay_reflector (e, r) events v = inr v
Evidence-later wss_fallback (e, r) events v = tt
Evidence-later wss_relay (e, r) events v = tt
Evidence-later udp_relay (e, r) events (inl v) = inl (inr v)
Evidence-later udp_relay (e, r) events (inr v) = inr (inr v)

Evidence-first :
    (s : TransportState) (x : TransportTransition × Bool)
    (events : List (TransportTransition × Bool))
    → Evidence s (x ∷ [])
    → Evidence s (x ∷ events)
Evidence-first stopped (e, r) events (inl v) = inl v
Evidence-first stopped (e, r) events (inr v) = elim v [ ]
Evidence-first direct_via_relay_reflector (e, r) events (inr v) = elim v [ ]
Evidence-first udp_relay (e, r) events (inl (inr v)) = elim v [ ]
Evidence-first udp_relay (e, r) events (inr (inr v)) = elim v [ ]
Evidence-first direct (e, r) events v = tt
Evidence-first direct_via_relay_reflector (e, r) events (inl v) = inl v
Evidence-first wss_fallback (e, r) events v = tt
Evidence-first wss_relay (e, r) events v = tt
Evidence-first udp_relay (e, r) events (inl (inl v)) = inl (inl v)
Evidence-first udp_relay (e, r) events (inr (inl v)) = inr (inl v)

route_after-Evidence_or_same :
    (s : TransportState) (events : List (TransportTransition × Bool))
    → Evidence (route_after s events) events ⊎ (route_after s events ≡ s)
unfolding route_after
route_after-Evidence_or_same s [] = inr refl
route_after-Evidence_or_same s ((e, r) ∷ events) =
    elim (route_after-Evidence_or_same (next_transport_state s e r) events) [
      | inl v ↦ inl (Evidence-later _ (e, r) events v)
      | inr kept ↦ elim (step-Evidence s e r) [
        | inl v ↦ inl (
            subst (λ t. Evidence t ((e, r) ∷ events)) (sym kept) (Evidence-first _ (e, r) events v))
        | inr same_ ↦ inr (kept ∙ same_)
      ]
    ]

fallback_or_relay :
    (b : Bool) (events : List (TransportTransition × Bool))
    → Evidence (if b then wss_fallback else wss_relay) events
fallback_or_relay true events = tt
fallback_or_relay false events = tt

initial-Evidence :
    (use_ws : Bool) (udp : String) (events : List (TransportTransition × Bool))
    → Evidence (initial_transport_state use_ws udp) events
unfolding initial_transport_state
initial-Evidence false udp events = tt
initial-Evidence true udp events = fallback_or_relay (not (test (string_discrete udp ""))) events

-- Every upgraded route has its evidence among the events since the connection began, whatever
-- their order: the route is direct through the reflector only after a direct path was established,
-- through the UDP relay only after that was established or a lost direct path found it available,
-- and stopped only after a shutdown.
pub route_after-Evidence :
    (use_ws : Bool) (udp : String) (events : List (TransportTransition × Bool))
    → Evidence (route_after (initial_transport_state use_ws udp) events) events
route_after-Evidence use_ws udp events =
    elim (route_after-Evidence_or_same (initial_transport_state use_ws udp) events) [
      | inl v ↦ v
      | inr same_ ↦ subst (λ t. Evidence t events) (sym same_) (initial-Evidence use_ws udp events)
    ]
