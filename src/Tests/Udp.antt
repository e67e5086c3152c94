-- ===== src/Tests/Udp.antt =====
-- Inputs for the UDP relay's session table.
use ntwire.Base.{
  ℕ, ◌+◌, String, ◌≡◌, refl, ◌≢◌, true, none, some, [], ◌∷◌, arith, ℕ_discrete, count, Map, lookup,
  delete, insert, if◌then◌else◌, string_discrete,
}
use ntwire.Relay.Limits.{Limits}
use ntwire.Relay.Udp.Ports.{new_port_allocator}
use ntwire.Relay.Udp.Ports
use ntwire.Relay.Udp.Frames.{Bytes, decode_control_frame, valid_relay_datagram}
use ntwire.Relay.Udp.Forward.{
  DatagramRelay, new_datagram_relay, handle_client_datagram, handle_server_datagram, on_server_conn,
  forward_from_client,
}
use ntwire.Relay.Udp.Forward.Permission.{
  to_servers, AllWrites, FromClient, FromServer, handle_client_datagram-permitted,
  handle_server_datagram-permitted,
}
use ntwire.Relay.Udp.Session.{AddrPort, AddrPort-discrete, Session, new_session, touch}
use ntwire.Relay.Udp.Table.{
  publish, Table, new_table, allocate, release, sweep_once, sessions_of, is_idle, bind_client,
  bind_server, moved, follow, lookup_by_client_addr,
}
use ntwire.Relay.Udp.Table.Invariant.{IsConsistent, new_table-IsConsistent}
use ntwire.Relay.Udp.Table.Steps.{
  Reach, here, next, allocates, binds_client, binds_server, Reach-IsConsistent,
  Reach-new-IsConsistent,
}
use ntwire.Relay.Udp.Table.Allocation.{Promised, allocate-Promised}
use ntwire.Relay.Udp.Table.Lifetimes.{sweep_once_exact, release_ends}

abbrev caps : Limits
caps = record {
  handshake_timeout = 5;
  dial_back_timeout = 5;
  max_pending_per_server = 2;
  max_conns_per_server = 3;
  udp_relay_idle_timeout = 60;
  max_udp_relay_sessions_per_server = 2;
  max_registrations_per_minute = 30;
  max_pending_registrations = 10;
}

abbrev pool : Map ℕ String
pool = (7001, "h:7001") ∷ []

abbrev start : Table
start = new_table (new_port_allocator pool) caps

abbrev one_session : Table
one_session = (allocate 10 (some "tok") "acme" start).0

abbrev client : AddrPort
client = record { addr = "192.0.2.1"; port = 4000 }

one_session-Reach : Reach start one_session
unfolding new_table lookup
one_session-Reach = next here (allocates 10 (some "tok") "acme" (λ token e. refl))

Reach-new-IsConsistent_example : IsConsistent one_session
unfolding lookup
Reach-new-IsConsistent_example =
    Reach-new-IsConsistent pool caps one_session (refl, tt) one_session-Reach

start-IsConsistent : IsConsistent start
unfolding lookup
start-IsConsistent = new_table-IsConsistent pool caps (refl, tt)

one_session-IsConsistent : IsConsistent one_session
one_session-IsConsistent = Reach-IsConsistent one_session-Reach start-IsConsistent

allocate-Promised_example : Promised 10 "tok" "acme" start
unfolding new_table new_port_allocator lookup
allocate-Promised_example =
    allocate-Promised 10 "tok" "acme" start start-IsConsistent (omega arith) (grind arith)

abbrev held : Session
held = touch 10 (new_session "tok" "acme" 7001)

one_session-lookup : lookup string_discrete "tok" one_session.by_token ≡ some held
unfolding string_discrete ℕ_discrete lookup insert delete allocate new_table Ports.allocate
    new_port_allocator Ports.split_last publish new_session touch
one_session-lookup = refl

sweep_once_exact_example :
    lookup string_discrete "tok" (sweep_once 99 60 one_session).by_token
    ≡ (if is_idle 99 60 held.last_activity then none else some held)
sweep_once_exact_example =
    sweep_once_exact 99 60 "tok" held one_session one_session-IsConsistent one_session-lookup

release_ends_example :
    (lookup string_discrete "tok" (release "tok" one_session).by_token ≡ none)
    × ((a : AddrPort)
        → lookup AddrPort-discrete a (release "tok" one_session).by_client ≢ some "tok")
    × (count held.server_port (release "tok" one_session).alloc.free ≡ 1)
    × (sessions_of (release "tok" one_session) held.tenant + 1
        ≡ sessions_of one_session held.tenant)
release_ends_example =
    release_ends "tok" held one_session one_session-IsConsistent one_session-lookup

abbrev relay : DatagramRelay
relay = new_datagram_relay one_session 30

abbrev as_token : Bytes → String
as_token b = "tok"

abbrev server : AddrPort
server = record { addr = "198.51.100.7"; port = 51820 }

-- both legs of the session are bound
abbrev both_bound : Table
both_bound = (bind_server 12 "tok" server (bind_client 11 "tok" client one_session).0).0

both_bound-IsConsistent : IsConsistent both_bound
both_bound-IsConsistent =
    Reach-IsConsistent
      (next (next one_session-Reach (binds_client 11 "tok" client)) (binds_server 12 "tok" server))
      start-IsConsistent

abbrev bound_relay : DatagramRelay
bound_relay = new_datagram_relay both_bound 30

-- The client's datagram goes to the server.
handle_client_datagram-permitted_example :
    AllWrites
      (FromClient (1 ∷ 2 ∷ []) client both_bound)
      (on_server_conn 7001 server (1 ∷ 2 ∷ []) ∷ [])
    × (to_servers (handle_client_datagram as_token 13 true (1 ∷ 2 ∷ []) client bound_relay).1
        ≡ on_server_conn 7001 server (1 ∷ 2 ∷ []) ∷ [])
unfolding new_datagram_relay handle_client_datagram decode_control_frame valid_relay_datagram
    forward_from_client lookup_by_client_addr follow string_discrete ℕ_discrete lookup insert delete
    allocate new_table Ports.allocate new_port_allocator Ports.split_last publish new_session touch
    bind_client bind_server moved AddrPort-discrete
handle_client_datagram-permitted_example =
    handle_client_datagram-permitted as_token 13 true bound_relay both_bound-IsConsistent
      (1 ∷ 2 ∷ []) client

handle_server_datagram-permitted_example :
    AllWrites
      (FromServer 7001 (0 ∷ 78 ∷ 84 ∷ 87 ∷ 4 ∷ 1 ∷ []) client one_session)
      (handle_server_datagram as_token 12 true 7001 (0 ∷ 78 ∷ 84 ∷ 87 ∷ 4 ∷ 1 ∷ []) client relay).1
unfolding new_datagram_relay
handle_server_datagram-permitted_example =
    handle_server_datagram-permitted as_token 12 true relay one_session-IsConsistent 7001
      (0 ∷ 78 ∷ 84 ∷ 87 ∷ 4 ∷ 1 ∷ []) client
