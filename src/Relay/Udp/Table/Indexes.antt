-- ===== src/Relay/Udp/Table/Indexes.antt =====
-- The indexes of the session table agree: tokens, ports, client addresses, counts per tenant.
use ntwire.Base.{
  ◌-◌, tally-delete, delete-IsMap, tally-insert_present, tally-insert_absent, insert-IsMap, ℕ, ◌+◌,
  ◌≤◌, ◌<◌, ◌≡◌, String, Bool, true, false, Option, none, some, arith, ℕ_discrete, string_discrete,
  Map, lookup, insert, delete, IsMap, lookup-insert, lookup-delete, test, tally,
}
use ntwire.Relay.Udp.Ports.{PortAllocator}
use ntwire.Relay.Udp.Session.{
  AddrPort, AddrPort-discrete, Session, Activity, at, retired, touch, new_session,
}
use ntwire.Relay.Udp.Table.{
  Table, publish, sessions_of, bound_server, bound_client, moved, drop_session, fewer,
}

abbrev pub IsLive : Activity → Type 0
IsLive (at t) = Unit
IsLive retired = ⊥

abbrev pub port_of : Map String Session → String → Option ℕ
port_of m k = elim (lookup string_discrete k m) [ none ↦ none | some s ↦ some s.server_port ]

-- where the client leg of a session is locked
abbrev pub leg : Session → Option AddrPort
leg s = elim s.client_bound [ true ↦ some s.client_addr | false ↦ none ]

abbrev pub client_of : Map String Session → String → Option AddrPort
client_of m k = elim (lookup string_discrete k m) [ none ↦ none | some s ↦ leg s ]

abbrev pub belongs : String → Session → Bool
belongs tenant s = test (string_discrete s.tenant tenant)

pub record IsIndexed (t : Table) : Type 0 where
  pub tokens : IsMap string_discrete t.by_token
  pub named :
      (k : String) (s : Session) → lookup string_discrete k t.by_token ≡ some s → s.token ≡ k
  pub live :
      (k : String) (s : Session)
      → lookup string_discrete k t.by_token ≡ some s
      → IsLive s.last_activity
  pub ports_to :
      (k : String) (s : Session)
      → lookup string_discrete k t.by_token ≡ some s
      → lookup ℕ_discrete s.server_port t.by_port ≡ some k
  pub ports_from :
      (p : ℕ) (k : String) → lookup ℕ_discrete p t.by_port ≡ some k → port_of t.by_token k ≡ some p
  pub clients :
      (a : AddrPort) (k : String)
      → lookup AddrPort-discrete a t.by_client ≡ some k
      → client_of t.by_token k ≡ some a
  pub counted : (n : String) → sessions_of t n ≡ tally (belongs n) t.by_token
  pub capped : (n : String) → sessions_of t n ≤ t.limits.max_udp_relay_sessions_per_server

-- The indexes do not look at the allocator.
pub IsIndexed-alloc :
    (t : Table) (a : PortAllocator) → IsIndexed t → IsIndexed (record t { alloc = a })
IsIndexed-alloc t a v = record {
  tokens = v.tokens;
  named = v.named;
  live = v.live;
  ports_to = v.ports_to;
  ports_from = v.ports_from;
  clients = v.clients;
  counted = v.counted;
  capped = v.capped;
}

-- A session that is added under a new token and an unused port.
module _ (t : Table) (v : IsIndexed t) (now : ℕ) (token tenant : String) (port : ℕ)
    (fresh : lookup string_discrete token t.by_token ≡ none)
    (unused : lookup ℕ_discrete port t.by_port ≡ none)
    (room : sessions_of t tenant < t.limits.max_udp_relay_sessions_per_server) where
  publish-ports_to :
      (k : String) (s : Session)
      → lookup string_discrete k (publish now token tenant port t).by_token ≡ some s
      → lookup ℕ_discrete s.server_port (publish now token tenant port t).by_port ≡ some k
  unfolding publish touch new_session
  publish-ports_to k s e = ground (
    arith,
    lookup-insert string_discrete token k (touch now (new_session token tenant port)) t.by_token,
    lookup-insert ℕ_discrete port s.server_port token t.by_port,
    v.ports_to k s,
  )

  pub publish-IsIndexed : IsIndexed (publish now token tenant port t)
  unfolding publish touch new_session
  publish-IsIndexed = record {
    tokens =
        insert-IsMap string_discrete token (touch now (new_session token tenant port)) t.by_token
          v.tokens;
    named = λ k s e. ground (
      arith,
      v.named k s,
      lookup-insert string_discrete token k (touch now (new_session token tenant port)) t.by_token,
    );
    live = λ k s e. ground (
      arith,
      v.live k s,
      lookup-insert string_discrete token k (touch now (new_session token tenant port)) t.by_token,
    );
    ports_to = publish-ports_to;
    ports_from = λ p k e. ground (
      arith,
      v.ports_from p k,
      lookup-insert ℕ_discrete port p token t.by_port,
      lookup-insert string_discrete token k (touch now (new_session token tenant port)) t.by_token,
    );
    clients = λ a k e. ground (
      arith,
      v.clients a k,
      lookup-insert string_discrete token k (touch now (new_session token tenant port)) t.by_token,
    );
    counted = λ n. ground (
      arith,
      v.counted n,
      v.counted tenant,
      tally-insert_absent string_discrete (belongs n) token
          (touch now (new_session token tenant port)) t.by_token,
      lookup-insert string_discrete tenant n (sessions_of t tenant + 1) t.tenant_n,
    );
    capped = λ n. ground (
      arith,
      v.capped n,
      lookup-insert string_discrete tenant n (sessions_of t tenant + 1) t.tenant_n,
    );
  }

-- A session that is stored again with another server address.
module _ (t : Table) (v : IsIndexed t) (now : ℕ) (token : String) (from : AddrPort) (s : Session)
    (found : lookup string_discrete token t.by_token ≡ some s) where
  pub bind_server-IsIndexed :
      IsIndexed
        (record t { by_token = insert string_discrete token (bound_server now from s) t.by_token })
  unfolding touch
  bind_server-IsIndexed = record {
    tokens = insert-IsMap string_discrete token (bound_server now from s) t.by_token v.tokens;
    named = λ k r e. ground (
      arith,
      v.named k r,
      v.named token s,
      lookup-insert string_discrete token k (bound_server now from s) t.by_token,
    );
    live = λ k r e. ground (
      arith,
      v.live k r,
      v.live token s,
      lookup-insert string_discrete token k (bound_server now from s) t.by_token,
    );
    ports_to = λ k r e. ground (
      arith,
      v.ports_to k r,
      v.ports_to token s,
      lookup-insert string_discrete token k (bound_server now from s) t.by_token,
    );
    ports_from = λ p k e. ground (
      arith,
      v.ports_from p k,
      lookup-insert string_discrete token k (bound_server now from s) t.by_token,
    );
    clients = λ a k e. ground (
      arith,
      v.clients a k,
      lookup-insert string_discrete token k (bound_server now from s) t.by_token,
    );
    counted = λ n. omega (
      arith,
      v.counted n,
      tally-insert_present string_discrete (belongs n) token (bound_server now from s) s t.by_token
          v.tokens found,
    );
    capped = v.capped;
  }

  pub bind_client-IsIndexed : IsIndexed (record t {
    by_token = insert string_discrete token (bound_client now from s) t.by_token;
    by_client = moved token s from t.by_client;
  })
  unfolding touch moved
  bind_client-IsIndexed = record {
    tokens = insert-IsMap string_discrete token (bound_client now from s) t.by_token v.tokens;
    named = λ k r e. ground (
      arith,
      v.named k r,
      v.named token s,
      lookup-insert string_discrete token k (bound_client now from s) t.by_token,
    );
    live = λ k r e. ground (
      arith,
      v.live k r,
      v.live token s,
      lookup-insert string_discrete token k (bound_client now from s) t.by_token,
    );
    ports_to = λ k r e. ground (
      arith,
      v.ports_to k r,
      v.ports_to token s,
      lookup-insert string_discrete token k (bound_client now from s) t.by_token,
    );
    ports_from = λ p k e. ground (
      arith,
      v.ports_from p k,
      lookup-insert string_discrete token k (bound_client now from s) t.by_token,
    );
    clients = λ a k e. ground (
      arith,
      v.clients a k,
      lookup-insert string_discrete token k (bound_client now from s) t.by_token,
      lookup-insert AddrPort-discrete from a token t.by_client,
      lookup-insert AddrPort-discrete from a token
          (delete AddrPort-discrete s.client_addr t.by_client),
      lookup-delete AddrPort-discrete s.client_addr a t.by_client,
    );
    counted = λ n. omega (
      arith,
      v.counted n,
      tally-insert_present string_discrete (belongs n) token (bound_client now from s) s t.by_token
          v.tokens found,
    );
    capped = v.capped;
  }

  pub drop_session-IsIndexed : IsIndexed (drop_session token s t)
  unfolding drop_session fewer
  drop_session-IsIndexed = record {
    tokens = delete-IsMap string_discrete token t.by_token v.tokens;
    named = λ k r e. ground (arith, v.named k r, lookup-delete string_discrete token k t.by_token);
    live = λ k r e. ground (arith, v.live k r, lookup-delete string_discrete token k t.by_token);
    ports_to = λ k r e. ground (
      arith,
      v.ports_to k r,
      v.ports_to token s,
      lookup-delete string_discrete token k t.by_token,
      lookup-delete ℕ_discrete s.server_port r.server_port t.by_port,
    );
    ports_from = λ p k e. ground (
      arith,
      v.ports_from p k,
      lookup-delete string_discrete token k t.by_token,
      lookup-delete ℕ_discrete s.server_port p t.by_port,
    );
    clients = λ a k e. ground (
      arith,
      v.clients a k,
      lookup-delete string_discrete token k t.by_token,
      lookup-delete AddrPort-discrete s.client_addr a t.by_client,
    );
    counted = λ n. ground (
      arith,
      v.counted n,
      v.counted s.tenant,
      tally-delete string_discrete (belongs n) token s t.by_token v.tokens found,
      lookup-delete string_discrete s.tenant n t.tenant_n,
      lookup-insert string_discrete s.tenant n (sessions_of t s.tenant - 1) t.tenant_n,
    );
    capped = λ n. ground (
      arith,
      v.capped n,
      lookup-delete string_discrete s.tenant n t.tenant_n,
      lookup-insert string_discrete s.tenant n (sessions_of t s.tenant - 1) t.tenant_n,
    );
  }
