-- ===== src/Relay/Udp/Table/Demux.antt =====
-- Which session a datagram reaches, in a consistent table.
use ntwire.Base.{
  delete, lookup-insert, inr, arith, inl, ℕ_discrete, string_discrete, Option-cases, ◌↔◌, lookup,
  true, some, String, ℕ, ◌≡◌,
}
use ntwire.Relay.Udp.Session.{AddrPort, AddrPort-discrete, Session}
use ntwire.Relay.Udp.Table.{
  Table, bind_client, bound_client, moved, known_client_bind, lookup_by_client_addr,
  session_for_port, follow,
}
use ntwire.Relay.Udp.Table.Invariant.{IsConsistent}
use ntwire.Relay.Udp.Table.Indexes.{leg}

module _ (t : Table) (v : IsConsistent t) where
  -- No two live sessions have the same server-leg port.
  pub port_unique :
      (k l : String) (r s : Session)
      → lookup string_discrete k t.by_token ≡ some r
      → lookup string_discrete l t.by_token ≡ some s
      → r.server_port ≡ s.server_port
      → k ≡ l
  port_unique k l r s e f same = ground (arith, v.indexed.ports_to k r e, v.indexed.ports_to l s f)

  -- In a consistent table, a datagram on a pooled port reaches a live session of that port, and each live session is
  -- reached on its own port.
  pub session_for_port_iff :
      (port : ℕ) (s : Session)
      → (session_for_port port t ≡ some s)
        ↔ ((lookup string_discrete s.token t.by_token ≡ some s) × (s.server_port ≡ port))
  unfolding session_for_port follow
  session_for_port_iff port s = (to, from)
    where
      to :
          session_for_port port t ≡ some s
          → (lookup string_discrete s.token t.by_token ≡ some s) × (s.server_port ≡ port)
      to e = elim (Option-cases (lookup ℕ_discrete port t.by_port)) [
        | inl missing ↦ absurd (ground arith)
        | inr (k, found) ↦ ground (arith, v.indexed.named k s, v.indexed.ports_from port k found)
      ]

      from :
          (lookup string_discrete s.token t.by_token ≡ some s) × (s.server_port ≡ port)
          → session_for_port port t ≡ some s
      from (found, same) = ground (arith, v.indexed.ports_to s.token s found)

  -- A client datagram reaches only a live session that is locked to its source address.
  pub lookup_by_client_addr_sound :
      (a : AddrPort) (s : Session)
      → lookup_by_client_addr a t ≡ some s
      → (lookup string_discrete s.token t.by_token ≡ some s) × (leg s ≡ some a)
  unfolding lookup_by_client_addr follow
  lookup_by_client_addr_sound a s e = elim (Option-cases (lookup AddrPort-discrete a t.by_client)) [
    | inl missing ↦ absurd (ground arith)
    | inr (k, found) ↦ ground (arith, v.indexed.named k s, v.indexed.clients a k found)
  ]

  -- In a consistent table, a bind frame with a live session's token routes its source address to that session.
  pub lookup_by_client_addr-bind_client :
      (now : ℕ) (token : String) (from : AddrPort) (s : Session)
      → lookup string_discrete token t.by_token ≡ some s
      → lookup_by_client_addr from (bind_client now token from t).0 ≡ some (bound_client now from s)
  unfolding lookup_by_client_addr follow bind_client moved
  lookup_by_client_addr-bind_client now token from s found =
      rw (found, bind_client)
        (ground (
          arith,
          lookup-insert AddrPort-discrete from from token t.by_client,
          lookup-insert AddrPort-discrete from from token
              (delete AddrPort-discrete s.client_addr t.by_client),
          lookup-insert string_discrete token token (bound_client now from s) t.by_token,
        ))

  -- In a consistent table, a bind frame counts as a keepalive exactly when its source already reaches the token's session.
  pub known_client_bind_iff :
      (token : String) (from : AddrPort)
      → (known_client_bind token from t ≡ true)
        ↔ ((s : Session) × (lookup_by_client_addr from t ≡ some s) × (s.token ≡ token))
  unfolding known_client_bind lookup_by_client_addr follow
  known_client_bind_iff token from = (forth, back)
    where
      forth :
          known_client_bind token from t ≡ true
          → (s : Session) × (lookup_by_client_addr from t ≡ some s) × (s.token ≡ token)
      forth e = elim (Option-cases (lookup string_discrete token t.by_token)) [
        | inl missing ↦ absurd (ground arith)
        | inr (s, found) ↦ (s, ground arith, v.indexed.named token s found)
      ]

      back :
          (s : Session) × (lookup_by_client_addr from t ≡ some s) × (s.token ≡ token)
          → known_client_bind token from t ≡ true
      back (s, e, same) = elim (Option-cases (lookup AddrPort-discrete from t.by_client)) [
        | inl missing ↦ absurd (ground arith)
        | inr (k, found) ↦ ground (arith, v.indexed.named k s, v.indexed.clients from k found)
      ]
