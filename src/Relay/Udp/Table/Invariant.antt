-- ===== src/Relay/Udp/Table/Invariant.antt =====
-- The whole table: the indexes agree, and a port is in use exactly while a session has it.
use ntwire.Base.{
  [], ◌∷◌, leb, Bool-cases, refl, lookup-insert, ap, ◌<◌, inr, inl, lookup-delete, Option-cases,
  none, arith, IsMap, Map, string_discrete, some, tally, ℕ_discrete, String, lookup, Option, has, ℕ,
  ◌≡◌,
}
use ntwire.Relay.Limits.{Limits}
use ntwire.Relay.Udp.Ports
use ntwire.Relay.Udp.Ports.{PortAllocator, is_in_use, new_port_allocator}
use ntwire.Relay.Udp.Ports.Accounting.{
  allocate-is_in_use, allocate-IsSound, disable-is_in_use, allocate_free, disable-IsSound,
  release-is_in_use, release-IsSound, IsSound, new-weight,
}
use ntwire.Relay.Udp.Session.{AddrPort, Session}
use ntwire.Relay.Udp.Table.{
  Table, new_table, publish, sessions_of, allocate, bind_server, bind_client, drop_session, release,
  disable_port, sweep_from, sweep_once, is_idle, reserve,
}
use ntwire.Relay.Udp.Table.Indexes.{
  IsIndexed-alloc, IsIndexed, publish-IsIndexed, bind_server-IsIndexed, bind_client-IsIndexed,
  drop_session-IsIndexed,
}

pub record IsConsistent (t : Table) : Type 0 where
  pub indexed : IsIndexed t
  pub sound : IsSound t.alloc
  pub used : (p : ℕ) → is_in_use t.alloc p ≡ has ℕ_discrete p t.by_port

pub new_table-IsConsistent :
    (conns : Map ℕ String) (limits : Limits)
    → IsMap ℕ_discrete conns
    → IsConsistent (new_table (new_port_allocator conns) limits)
unfolding new_table new_port_allocator lookup tally
new_table-IsConsistent conns limits h = record {
  indexed = record {
    tokens = tt;
    named = λ k s e. ground arith;
    live = λ k s e. ground arith;
    ports_to = λ k s e. ground arith;
    ports_from = λ p k e. ground arith;
    clients = λ a k e. ground arith;
    counted = λ n. refl;
    capped = λ n. omega arith;
  };
  sound = λ q. omega (arith, new-weight conns h q);
  used = λ p. refl;
}

-- `randomConnID` draws no token of a live session.
abbrev pub IsFresh : Option String → Table → Type 0
IsFresh drawn t =
    (token : String) → drawn ≡ some token → lookup string_discrete token t.by_token ≡ none

module _ (t : Table) (v : IsConsistent t) where
  drop_session-IsSound : (token : String) (s : Session) → IsSound (drop_session token s t).alloc
  unfolding drop_session
  drop_session-IsSound token s = release-IsSound t.alloc s.server_port v.sound

  drop_session-used :
      (token : String) (s : Session) (p : ℕ)
      → is_in_use (drop_session token s t).alloc p
        ≡ has ℕ_discrete p (drop_session token s t).by_port
  unfolding drop_session
  drop_session-used token s p = ground (
    arith,
    v.used p,
    release-is_in_use t.alloc s.server_port p,
    lookup-delete ℕ_discrete s.server_port p t.by_port,
  )

  drop_session-IsConsistent :
      (token : String) (s : Session)
      → lookup string_discrete token t.by_token ≡ some s
      → IsConsistent (drop_session token s t)
  drop_session-IsConsistent token s found = record {
    indexed = drop_session-IsIndexed t v.indexed 0 token s.client_addr s found;
    sound = drop_session-IsSound token s;
    used = drop_session-used token s;
  }

  pub release-IsConsistent : (token : String) → IsConsistent (release token t)
  unfolding release
  release-IsConsistent token = elim (Option-cases (lookup string_discrete token t.by_token)) [
    | inl e ↦ rw (e, release) v
    | inr (s, e) ↦ rw (e, release) (drop_session-IsConsistent token s e)
  ]

  pub bind_server-IsConsistent :
      (now : ℕ) (token : String) (from : AddrPort) → IsConsistent (bind_server now token from t).0
  unfolding bind_server
  bind_server-IsConsistent now token from =
      elim (Option-cases (lookup string_discrete token t.by_token)) [
        | inl e ↦ rw (e, bind_server) v
        | inr (s, e) ↦
            rw (e, bind_server)
              (record {
                indexed = bind_server-IsIndexed t v.indexed now token from s e;
                sound = v.sound;
                used = v.used;
              })
      ]

  pub bind_client-IsConsistent :
      (now : ℕ) (token : String) (from : AddrPort) → IsConsistent (bind_client now token from t).0
  unfolding bind_client
  bind_client-IsConsistent now token from =
      elim (Option-cases (lookup string_discrete token t.by_token)) [
        | inl e ↦ rw (e, bind_client) v
        | inr (s, e) ↦
            rw (e, bind_client)
              (record {
                indexed = bind_client-IsIndexed t v.indexed now token from s e;
                sound = v.sound;
                used = v.used;
              })
      ]

  -- A failed port leaves the pool, and its session with it.
  disable_port-with :
      (port : ℕ) (token : String) (s : Session)
      → lookup string_discrete token t.by_token ≡ some s
      → s.server_port ≡ port
      → IsConsistent (drop_session token s (record t { alloc = Ports.disable t.alloc port }))
  unfolding drop_session
  disable_port-with port token s found same = record {
    indexed =
        drop_session-IsIndexed (record t { alloc = Ports.disable t.alloc port })
          (IsIndexed-alloc t _ v.indexed) 0 token s.client_addr s found;
    sound =
        release-IsSound (Ports.disable t.alloc port) s.server_port
          (disable-IsSound t.alloc port v.sound);
    used = λ p. ground (
      arith,
      v.used p,
      release-is_in_use (Ports.disable t.alloc port) s.server_port p,
      disable-is_in_use t.alloc port p,
      lookup-delete ℕ_discrete s.server_port p t.by_port,
    );
  }

  session_at :
      (port : ℕ) (token : String)
      → lookup ℕ_discrete port t.by_port ≡ some token
      → (s : Session) × (lookup string_discrete token t.by_token ≡ some s) × (s.server_port ≡ port)
  session_at port token e = elim (Option-cases (lookup string_discrete token t.by_token)) [
    | inl missing ↦ absurd (ground (arith, v.indexed.ports_from port token e))
    | inr (s, found) ↦ (s, found, ground (arith, v.indexed.ports_from port token e))
  ]

  pub disable_port-IsConsistent : (port : ℕ) → IsConsistent (disable_port port t)
  unfolding disable_port
  disable_port-IsConsistent port = elim (Option-cases (lookup ℕ_discrete port t.by_port)) [
    | inl e ↦
        rw (e, disable_port)
          (record {
            indexed = IsIndexed-alloc t _ v.indexed;
            sound = disable-IsSound t.alloc port v.sound;
            used = λ p. ground (arith, v.used p, disable-is_in_use t.alloc port p);
          })
    | inr (token, e) ↦
        let (s, found, same) = session_at port token e in
        rw (e, disable_port) (rw (found, release) (disable_port-with port token s found same))
  ]

  allocate-publish :
      (now : ℕ) (token tenant : String) (p : PortAllocator) (port : ℕ) (conn : Option String)
      → lookup string_discrete token t.by_token ≡ none
      → sessions_of t tenant < t.limits.max_udp_relay_sessions_per_server
      → Ports.allocate t.alloc ≡ (p, some (port, conn))
      → IsConsistent (publish now token tenant port (record t { alloc = p }))
  unfolding publish
  allocate-publish now token tenant p port conn fresh room given = record {
    indexed =
        publish-IsIndexed (record t { alloc = p }) (IsIndexed-alloc t p v.indexed) now token tenant
          port fresh (ground (arith, v.used port, allocate_free t.alloc p port conn v.sound given))
          room;
    sound = rw (ap (λ x. x.0) given) at (allocate-IsSound t.alloc v.sound);
    used = λ q. ground (
      arith,
      v.used q,
      allocate-is_in_use t.alloc p port conn v.sound given q,
      lookup-insert ℕ_discrete port q token t.by_port,
    );
  }

  allocate-none :
      (tenant : String) (p : PortAllocator) (port : ℕ) (conn : Option String)
      → Ports.allocate t.alloc ≡ (p, some (port, conn))
      → IsConsistent (record t { alloc = Ports.release p port })
  allocate-none tenant p port conn given = record {
    indexed = IsIndexed-alloc t _ v.indexed;
    sound = release-IsSound p port (rw (ap (λ x. x.0) given) at (allocate-IsSound t.alloc v.sound));
    used = λ q. ground (
      arith,
      v.used q,
      release-is_in_use p port q,
      allocate_free t.alloc p port conn v.sound given,
      allocate-is_in_use t.alloc p port conn v.sound given q,
    );
  }

  reserve-IsConsistent :
      (now : ℕ) (drawn : Option String) (tenant : String)
      (r : PortAllocator × Option (ℕ × Option String))
      → IsFresh drawn t
      → sessions_of t tenant < t.limits.max_udp_relay_sessions_per_server
      → Ports.allocate t.alloc ≡ r
      → IsConsistent (reserve now drawn tenant t r).0
  unfolding reserve
  reserve-IsConsistent now drawn tenant (p, none) fresh room given = v
  reserve-IsConsistent now none tenant (p, some (port, conn)) fresh room given =
      allocate-none tenant p port conn given
  reserve-IsConsistent now (some token) tenant (p, some (port, none)) fresh room given =
      allocate-publish now token tenant p port none (fresh token refl) room given
  reserve-IsConsistent now (some token) tenant (p, some (port, some addr)) fresh room given =
      allocate-publish now token tenant p port (some addr) (fresh token refl) room given

  pub allocate-IsConsistent :
      (now : ℕ) (drawn : Option String) (tenant : String)
      → IsFresh drawn t
      → IsConsistent (allocate now drawn tenant t).0
  unfolding allocate
  allocate-IsConsistent now drawn tenant fresh =
      elim (Bool-cases (leb t.limits.max_udp_relay_sessions_per_server (sessions_of t tenant))) [
        | inl full ↦ rw full v
        | inr room ↦ rw room (reserve-IsConsistent now drawn tenant _ fresh (ground arith) refl)
      ]

pub sweep_from-IsConsistent :
    (now idle : ℕ) (m : Map String Session) (t : Table)
    → IsConsistent t
    → IsConsistent (sweep_from now idle m t)
unfolding sweep_from
sweep_from-IsConsistent now idle [] t v = v
sweep_from-IsConsistent now idle ((token, s) ∷ m) t v =
    elim (Bool-cases (is_idle now idle s.last_activity)) [
      | inl e ↦
          rw e
            (sweep_from-IsConsistent now idle m (release token t) (release-IsConsistent t v token))
      | inr e ↦ rw e (sweep_from-IsConsistent now idle m t v)
    ]

pub sweep_once-IsConsistent :
    (now idle : ℕ) (t : Table) → IsConsistent t → IsConsistent (sweep_once now idle t)
unfolding sweep_once
sweep_once-IsConsistent now idle t v = sweep_from-IsConsistent now idle t.by_token t v
