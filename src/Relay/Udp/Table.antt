-- ===== src/Relay/Udp/Table.antt =====
-- `udpSessionTable` of pkg/relay/udpsession.go. Each method holds the table's mutex, so it is one
-- step. A *udpRelaySession is named by its token, the key that it is stored under; the token that
-- `randomConnID` draws is an argument (nothing, where the system has no randomness), and a
-- run supposes of it that no live session has it. What a goroutine may still hold of a released
-- session is kept in `gone`.
pub mod Indexes
pub mod Invariant
pub mod Steps
pub mod Demux
pub mod Allocation
pub mod Lifetimes
use ntwire.Base.{
  ℕ, String, Bool, true, false, ◌&&◌, not, Option, none, some, List, [], ◌∷◌, ◌+◌, ◌-◌, Map, lookup,
  insert, delete, get_or, ltb, leb, test, if◌then◌else◌, ◌==◌, ℕ_discrete, string_discrete,
}
use ntwire.Relay.Limits.{Limits}
use ntwire.Relay.Udp.Ports
use ntwire.Relay.Udp.Ports.{PortAllocator}
use ntwire.Relay.Udp.Session.{
  AddrPort, AddrPort-discrete, Session, Activity, at, retired, new_session, touch,
}

pub record Table : Type 0 where
  pub alloc : PortAllocator
  pub by_token : Map String Session
  pub by_port : Map ℕ String
  pub by_client : Map AddrPort String
  pub tenant_n : Map String ℕ
  pub limits : Limits
  pub gone : List Session

unfoldable pub new_table : PortAllocator → Limits → Table
new_table alloc limits = record {
  alloc = alloc;
  by_token = [];
  by_port = [];
  by_client = [];
  tenant_n = [];
  limits = limits;
  gone = [];
}

-- The errors of `Allocate`; `nil_conn` is the panic at a pooled port without a socket.
pub data AllocateError : Type 0 where
  tenant_at_capacity pool_exhausted no_randomness nil_conn : AllocateError

pub data Allocated : Type 0 where
  failed : AllocateError → Allocated
  allocated : String → String → Allocated

abbrev pub sessions_of : Table → String → ℕ
sessions_of t tenant = get_or string_discrete tenant t.tenant_n 0

-- the end of `Allocate`, once a port is reserved
unfoldable pub publish : ℕ → String → String → ℕ → Table → Table
unfolding new_session touch
publish now token tenant port t = record t {
  by_token = insert string_discrete token (touch now (new_session token tenant port)) t.by_token;
  by_port = insert ℕ_discrete port token t.by_port;
  tenant_n = insert string_discrete tenant (sessions_of t tenant + 1) t.tenant_n;
}

unfoldable pub reserve :
    ℕ
    → Option String
    → String
    → Table
    → PortAllocator × Option (ℕ × Option String)
    → Table × Allocated
unfolding publish Ports.release
reserve now drawn tenant t (alloc, none) = (t, failed pool_exhausted)
reserve now none tenant t (alloc, some (port, conn)) =
    (record t { alloc = Ports.release alloc port }, failed no_randomness)
reserve now (some token) tenant t (alloc, some (port, none)) =
    (publish now token tenant port (record t { alloc = alloc }), failed nil_conn)
reserve now (some token) tenant t (alloc, some (port, some addr)) =
    (publish now token tenant port (record t { alloc = alloc }), allocated token addr)

unfoldable pub allocate : ℕ → Option String → String → Table → Table × Allocated
unfolding reserve Ports.allocate
allocate now drawn tenant t =
    if leb t.limits.max_udp_relay_sessions_per_server (sessions_of t tenant)
    then (t, failed tenant_at_capacity)
    else reserve now drawn tenant t (Ports.allocate t.alloc)

abbrev bound_server : ℕ → AddrPort → Session → Session
bound_server now from s = touch now (record s { server_addr = from; server_bound = true })

unfoldable pub bind_server : ℕ → String → AddrPort → Table → Table × Option Session
unfolding touch
bind_server now token from t = elim (lookup string_discrete token t.by_token) [
  | none ↦ (t, none)
  | some s ↦ (
    record t { by_token = insert string_discrete token (bound_server now from s) t.by_token },
    some (bound_server now from s),
  )
]

abbrev pub bound_client : ℕ → AddrPort → Session → Session
bound_client now from s = touch now (record s { client_addr = from; client_bound = true })

-- m[a] == sess
abbrev pub points_to : Map AddrPort String → AddrPort → String → Bool
points_to m a token = elim (lookup AddrPort-discrete a m) [
  | none ↦ false
  | some other ↦ test (string_discrete other token)
]

-- the demux index after a client's bind frame
unfoldable pub moved : String → Session → AddrPort → Map AddrPort String → Map AddrPort String
moved token s from m = insert AddrPort-discrete from token (
    if s.client_bound
      && not (test (AddrPort-discrete s.client_addr from))
      && points_to m s.client_addr token
    then delete AddrPort-discrete s.client_addr m
    else m)

unfoldable pub bind_client : ℕ → String → AddrPort → Table → Table × Option Session
unfolding touch moved
bind_client now token from t = elim (lookup string_discrete token t.by_token) [
  | none ↦ (t, none)
  | some s ↦ (
    record t {
      by_token = insert string_discrete token (bound_client now from s) t.by_token;
      by_client = moved token s from t.by_client;
    },
    some (bound_client now from s),
  )
]

unfoldable pub known_client_bind : String → AddrPort → Table → Bool
known_client_bind token from t = elim (lookup string_discrete token t.by_token) [
  | none ↦ false
  | some s ↦
      points_to t.by_client from token
      && s.client_bound
      && test (AddrPort-discrete s.client_addr from)
]

-- a pointer read from an index, followed
unfoldable pub follow : Table → Option String → Option Session
follow t none = none
follow t (some token) = lookup string_discrete token t.by_token

unfoldable pub lookup_by_client_addr : AddrPort → Table → Option Session
unfolding follow
lookup_by_client_addr a t = follow t (lookup AddrPort-discrete a t.by_client)

unfoldable pub session_for_port : ℕ → Table → Option Session
unfolding follow
session_for_port port t = follow t (lookup ℕ_discrete port t.by_port)

-- t.tenantN[tenant]--, and the entry goes when it reaches 0
unfoldable pub fewer : String → Map String ℕ → Map String ℕ
fewer tenant m =
    let n = get_or string_discrete tenant m 0 - 1 in
    if n == 0 then delete string_discrete tenant m else insert string_discrete tenant n m

-- the session as `releaseLocked` leaves it
abbrev retire : Session → Session
retire s = record s { last_activity = retired; client_bound = false; server_bound = false }

unfoldable pub drop_session : String → Session → Table → Table
unfolding fewer Ports.release
drop_session token s t = record t {
  alloc = Ports.release t.alloc s.server_port;
  by_token = delete string_discrete token t.by_token;
  by_port = delete ℕ_discrete s.server_port t.by_port;
  by_client =
      if s.client_bound && points_to t.by_client s.client_addr token
      then delete AddrPort-discrete s.client_addr t.by_client
      else t.by_client;
  tenant_n = fewer s.tenant t.tenant_n;
  gone = retire s ∷ t.gone;
}

-- `Release`, `releaseLocked`
unfoldable pub release : String → Table → Table
unfolding drop_session
release token t = elim (lookup string_discrete token t.by_token) [
  | none ↦ t
  | some s ↦ drop_session token s t
]

unfoldable pub disable_port : ℕ → Table → Table
unfolding Ports.disable release
disable_port port t =
    let t' = record t { alloc = Ports.disable t.alloc port } in
    elim (lookup ℕ_discrete port t.by_port) [ none ↦ t' | some token ↦ release token t' ]

-- time.Since(time.Unix(0, last)) > idleTimeout
abbrev pub is_idle : ℕ → ℕ → Activity → Bool
is_idle now idle_timeout (at last) = ltb (last + idle_timeout) now
is_idle now idle_timeout retired = false

-- the loop of `sweepOnce` over the entries of the map
unfoldable pub sweep_from : ℕ → ℕ → Map String Session → Table → Table
unfolding release
sweep_from now idle [] t = t
sweep_from now idle ((token, s) ∷ rest) t =
    sweep_from now idle rest (if is_idle now idle s.last_activity then release token t else t)

unfoldable pub sweep_once : ℕ → ℕ → Table → Table
unfolding sweep_from
sweep_once now idle t = sweep_from now idle t.by_token t
