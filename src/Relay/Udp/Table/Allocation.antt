-- ===== src/Relay/Udp/Table/Allocation.antt =====
-- What `Allocate` gives, and when.
use ntwire.Base.{
  ◌+◌, inr, string_discrete, lookup-insert, inl, ℕ_discrete, arith, leb, [], lookup, Bool-cases,
  none, ◌<◌, ◌≢◌, some, Option, String, ℕ, ◌≡◌, refl,
}
use ntwire.Relay.Udp.Ports
use ntwire.Relay.Udp.Ports.{PortAllocator, split_last}
use ntwire.Relay.Udp.Ports.Accounting.{
  allocate_conn, allocate-ne-none, allocate_free, allocate_pooled,
}
use ntwire.Relay.Udp.Session.{new_session, touch}
use ntwire.Relay.Udp.Table.{
  Table, failed, allocated, nil_conn, sessions_of, allocate, reserve, publish, session_for_port,
  follow,
}
use ntwire.Relay.Udp.Table.Invariant.{IsConsistent}

reserve-ne-nil_conn :
    (now : ℕ) (drawn : Option String) (tenant : String) (t : Table)
    (r : PortAllocator × Option (ℕ × Option String))
    → IsConsistent t
    → Ports.allocate t.alloc ≡ r
    → (reserve now drawn tenant t r).1 ≢ failed nil_conn
unfolding reserve
reserve-ne-nil_conn now drawn tenant t (p, none) v e = λ q. cc
reserve-ne-nil_conn now none tenant t (p, some (port, conn)) v e = λ q. cc
reserve-ne-nil_conn now (some token) tenant t (p, some (port, none)) v e =
    λ q. absurd (allocate_pooled t.alloc p port none v.sound e refl)
reserve-ne-nil_conn now (some token) tenant t (p, some (port, some addr)) v e = λ q. cc

-- In a consistent table `Allocate` never reads the address of a socket that is not there.
pub allocate-ne-nil_conn :
    (now : ℕ) (drawn : Option String) (tenant : String) (t : Table)
    → IsConsistent t
    → (allocate now drawn tenant t).1 ≢ failed nil_conn
unfolding allocate
allocate-ne-nil_conn now drawn tenant t v =
    elim (Bool-cases (leb t.limits.max_udp_relay_sessions_per_server (sessions_of t tenant))) [
      | inl full ↦ rw full (λ q. cc)
      | inr room ↦ rw room (reserve-ne-nil_conn now drawn tenant t _ v refl)
    ]

-- What a caller is promised by a successful `Allocate`.
pub record Promised (now : ℕ) (token tenant : String) (t : Table) : Type 0 where
  pub port : ℕ
  pub addr : String
  pub result : (allocate now (some token) tenant t).1 ≡ allocated token addr
  pub local_addr : lookup ℕ_discrete port t.alloc.conns ≡ some addr
  pub was_unused : session_for_port port t ≡ none
  pub now_used :
      session_for_port port (allocate now (some token) tenant t).0
      ≡ some (touch now (new_session token tenant port))
  pub one_more :
      sessions_of (allocate now (some token) tenant t).0 tenant ≡ sessions_of t tenant + 1

reserve-Promised :
    (now : ℕ) (token tenant : String) (t : Table) (r : PortAllocator × Option (ℕ × Option String))
    → IsConsistent t
    → sessions_of t tenant < t.limits.max_udp_relay_sessions_per_server
    → r.1 ≢ none
    → Ports.allocate t.alloc ≡ r
    → Promised now token tenant t
unfolding allocate reserve publish session_for_port follow
reserve-Promised now token tenant t (p, none) v room some_free e = absurd (some_free refl)
reserve-Promised now token tenant t (p, some (port, none)) v room some_free e =
    absurd (allocate_pooled t.alloc p port none v.sound e refl)
reserve-Promised now token tenant t (p, some (port, some addr)) v room some_free e = record {
  port = port;
  addr = addr;
  result = ground arith;
  local_addr = allocate_conn t.alloc p port (some addr) v.sound e;
  was_unused = ground (arith, v.used port, allocate_free t.alloc p port (some addr) v.sound e);
  now_used = ground (
    arith,
    lookup-insert ℕ_discrete port port token t.by_port,
    lookup-insert string_discrete token token (touch now (new_session token tenant port))
        t.by_token,
  );
  one_more =
      ground
        (arith, lookup-insert string_discrete tenant tenant (sessions_of t tenant + 1) t.tenant_n);
}

-- In a consistent table, below the tenant's cap, with a port free and a token drawn, `Allocate` succeeds: it returns the
-- address of a pooled port that no session had, the port reaches the new session with the token,
-- and the tenant has one session more.
pub allocate-Promised :
    (now : ℕ) (token tenant : String) (t : Table)
    → IsConsistent t
    → sessions_of t tenant < t.limits.max_udp_relay_sessions_per_server
    → t.alloc.free ≢ []
    → Promised now token tenant t
allocate-Promised now token tenant t v room free =
    reserve-Promised now token tenant t _ v room (allocate-ne-none t.alloc free) refl
