-- ===== src/Relay/Udp/Table/Lifetimes.antt =====
-- When a session begins and ends.
use ntwire.Base.{
  ◌∷◌, [], ◌-◌, lookup-insert, tally-delete, ◌+◌, if◌then◌else◌, count, ℕ_discrete, ◌≢◌, ◌≤◌,
  bit-has-le, Option, ◌∙◌, lookup-delete, inr, arith, inl, false, Option-cases, none, some, Bool,
  IsMap, ite, string_discrete, Map, lookup, String, ℕ, ◌≡◌, refl,
}
use ntwire.Relay.Udp.Ports
use ntwire.Relay.Udp.Ports.{PortAllocator, is_in_use}
use ntwire.Relay.Udp.Ports.Accounting.{
  weight, IsSound, release-weight, disable-weight, allocate-weight, release-is_in_use,
}
use ntwire.Relay.Udp.Session.{AddrPort, AddrPort-discrete, Session}
use ntwire.Relay.Udp.Table.{
  fewer, Table, sessions_of, allocate, reserve, publish, release, drop_session, disable_port,
  sweep_from, sweep_once, is_idle, session_for_port, follow, bind_server, bind_client,
}
use ntwire.Relay.Udp.Table.Invariant.{IsConsistent, disable_port-IsConsistent}
use ntwire.Relay.Udp.Table.Indexes.{belongs}
use ntwire.Relay.Udp.Table.Steps.{
  Step, Reach, Reach-IsConsistent, allocates, binds_server, binds_client, releases, disables,
  sweeps, here, next,
}

lookup-release :
    (token k : String) (t : Table)
    → lookup string_discrete k (release token t).by_token
      ≡ ite (string_discrete token k) none (lookup string_discrete k t.by_token)
unfolding release drop_session
lookup-release token k t = elim (Option-cases (lookup string_discrete token t.by_token)) [
  | inl e ↦ rw (e, release) (ground arith)
  | inr (s, e) ↦ rw (e, release) (lookup-delete string_discrete token k t.by_token)
]

abbrev idle_in : ℕ → ℕ → String → Map String Session → Bool
idle_in now idle k m = elim (lookup string_discrete k m) [
  | none ↦ false
  | some s ↦ is_idle now idle s.last_activity
]

lookup-sweep_from :
    (now idle : ℕ) (k : String) (m : Map String Session) (t : Table)
    → IsMap string_discrete m
    → lookup string_discrete k (sweep_from now idle m t).by_token
      ≡ (if idle_in now idle k m then none else lookup string_discrete k t.by_token)
unfolding sweep_from lookup
lookup-sweep_from now idle k [] t h = refl
lookup-sweep_from now idle k ((token, s) ∷ m) t (fresh, h) = ground (
  arith,
  lookup-release token k t,
  lookup-sweep_from now idle k m (release token t) h,
  lookup-sweep_from now idle k m t h,
)

-- In a consistent table, the idle sweep ends a live session exactly if it has been idle for longer than the timeout, and
-- leaves every other session as it was.
pub sweep_once_exact :
    (now idle : ℕ) (k : String) (s : Session) (t : Table)
    → IsConsistent t
    → lookup string_discrete k t.by_token ≡ some s
    → lookup string_discrete k (sweep_once now idle t).by_token
      ≡ (if is_idle now idle s.last_activity then none else some s)
unfolding sweep_once
sweep_once_exact now idle k s t v e =
    ground (arith, lookup-sweep_from now idle k t.by_token t v.indexed.tokens)

-- In a consistent table, releasing a live session ends it: its token is unknown, no source address reaches it, its port is
-- free again, once, and its tenant has one session fewer.
pub release_ends :
    (token : String) (s : Session) (t : Table)
    → IsConsistent t
    → lookup string_discrete token t.by_token ≡ some s
    → (lookup string_discrete token (release token t).by_token ≡ none)
      × ((a : AddrPort) → lookup AddrPort-discrete a (release token t).by_client ≢ some token)
      × (count s.server_port (release token t).alloc.free ≡ 1)
      × (sessions_of (release token t) s.tenant + 1 ≡ sessions_of t s.tenant)
unfolding release drop_session fewer
release_ends token s t v e =
    rw (e, release)
      (
        ground (arith, lookup-delete string_discrete token token t.by_token),
        λ a f. ground (
          arith,
          v.indexed.clients a token,
          lookup-delete AddrPort-discrete s.client_addr a t.by_client,
        ),
        ground (
          arith,
          v.used s.server_port,
          v.sound s.server_port,
          v.indexed.ports_to token s e,
          release-weight t.alloc s.server_port s.server_port,
          release-is_in_use t.alloc s.server_port s.server_port,
          bit-has-le ℕ_discrete s.server_port t.alloc.conns,
        ),
        ground (
          arith,
          v.indexed.counted s.tenant,
          tally-delete string_discrete (belongs s.tenant) token s t.by_token v.indexed.tokens e,
          lookup-delete string_discrete s.tenant s.tenant t.tenant_n,
          lookup-insert string_discrete s.tenant s.tenant (sessions_of t s.tenant - 1) t.tenant_n,
        ),
      )

release-weight_table :
    (token : String) (q : ℕ) (t : Table) → weight (release token t).alloc q ≡ weight t.alloc q
unfolding release drop_session
release-weight_table token q t = elim (Option-cases (lookup string_discrete token t.by_token)) [
  | inl e ↦ rw (e, release) refl
  | inr (s, e) ↦ rw (e, release) (release-weight t.alloc s.server_port q)
]

sweep_from-weight :
    (now idle : ℕ) (m : Map String Session) (q : ℕ) (t : Table)
    → weight (sweep_from now idle m t).alloc q ≡ weight t.alloc q
unfolding sweep_from
sweep_from-weight now idle [] q t = refl
sweep_from-weight now idle ((token, s) ∷ m) q t = ground (
  arith,
  release-weight_table token q t,
  sweep_from-weight now idle m q (release token t),
  sweep_from-weight now idle m q t,
)

disable_port-weight :
    (port q : ℕ) (t : Table)
    → weight t.alloc port ≤ 1
    → weight (disable_port port t).alloc q ≡ ite (ℕ_discrete port q) 0 (weight t.alloc q)
unfolding disable_port
disable_port-weight port q t h = elim (Option-cases (lookup ℕ_discrete port t.by_port)) [
  | inl e ↦ rw (e, disable_port) (disable-weight t.alloc port q h)
  | inr (token, e) ↦
      rw (e, disable_port)
        (release-weight_table token q (record t { alloc = Ports.disable t.alloc port })
          ∙ disable-weight t.alloc port q h)
]

reserve-weight :
    (now : ℕ) (drawn : Option String) (tenant : String) (t : Table)
    (r : PortAllocator × Option (ℕ × Option String)) (q : ℕ)
    → Ports.allocate t.alloc ≡ r
    → IsSound t.alloc
    → weight (reserve now drawn tenant t r).0.alloc q ≡ weight t.alloc q
unfolding reserve publish
reserve-weight now drawn tenant t (p, none) q e h = refl
reserve-weight now none tenant t (p, some (port, conn)) q e h =
    ground (arith, release-weight p port q, allocate-weight t.alloc h q)
reserve-weight now (some token) tenant t (p, some (port, none)) q e h =
    ground (arith, allocate-weight t.alloc h q)
reserve-weight now (some token) tenant t (p, some (port, some addr)) q e h =
    ground (arith, allocate-weight t.alloc h q)

allocate-weight_table :
    (now : ℕ) (drawn : Option String) (tenant : String) (q : ℕ) (t : Table)
    → IsSound t.alloc
    → weight (allocate now drawn tenant t).0.alloc q ≡ weight t.alloc q
unfolding allocate
allocate-weight_table now drawn tenant q t h =
    ground (arith, reserve-weight now drawn tenant t (Ports.allocate t.alloc) q refl h)

bind_server-weight :
    (now : ℕ) (token : String) (from : AddrPort) (q : ℕ) (t : Table)
    → weight (bind_server now token from t).0.alloc q ≡ weight t.alloc q
unfolding bind_server
bind_server-weight now token from q t = ground arith

bind_client-weight :
    (now : ℕ) (token : String) (from : AddrPort) (q : ℕ) (t : Table)
    → weight (bind_client now token from t).0.alloc q ≡ weight t.alloc q
unfolding bind_client
bind_client-weight now token from q t = ground arith

Step-out_of_service :
    {t u : Table}
    → Step t u
    → (port : ℕ) → IsConsistent t
    → weight t.alloc port ≡ 0
    → weight u.alloc port ≡ 0
Step-out_of_service {t} (allocates now drawn tenant fresh) port v h =
    allocate-weight_table now drawn tenant port t v.sound ∙ h
Step-out_of_service {t} (binds_server now token from) port v h =
    bind_server-weight now token from port t ∙ h
Step-out_of_service {t} (binds_client now token from) port v h =
    bind_client-weight now token from port t ∙ h
Step-out_of_service {t} (releases token) port v h = release-weight_table token port t ∙ h
Step-out_of_service {t} (disables p) port v h =
    ground (arith, disable_port-weight p port t, v.sound p, bit-has-le ℕ_discrete p t.alloc.conns)
Step-out_of_service {t} (sweeps now idle) port v h =
    unfold sweep_once in (sweep_from-weight now idle t.by_token port t ∙ h)

Reach-out_of_service :
    {t u : Table}
    → Reach t u
    → (port : ℕ) → IsConsistent t
    → weight t.alloc port ≡ 0
    → weight u.alloc port ≡ 0
Reach-out_of_service here port v h = h
Reach-out_of_service (next r st) port v h =
    Step-out_of_service st port (Reach-IsConsistent r v) (Reach-out_of_service r port v h)

-- After a port is disabled in a consistent table, no later calls, in any order, give it to a session again.
pub disabled_port_unused :
    (port : ℕ) (t u : Table)
    → IsConsistent t
    → Reach (disable_port port t) u
    → session_for_port port u ≡ none
unfolding session_for_port follow
disabled_port_unused port t u v r =
    let start : weight (disable_port port t).alloc port ≡ 0 = ground (
      arith,
      disable_port-weight port port t,
      v.sound port,
      bit-has-le ℕ_discrete port t.alloc.conns,
    ) in
    let w : IsConsistent (disable_port port t) = disable_port-IsConsistent t v port in
    ground (arith, Reach-out_of_service r port w start, (Reach-IsConsistent r w).used port)
