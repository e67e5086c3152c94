-- ===== src/Relay/Udp/Forward/Permission.antt =====
-- Where `datagramRelay` of pkg/relay/udpforward.go sends datagrams.
use ntwire.Base.{
  ℕ, String, ◌≡◌, refl, sym, subst, ◌⊎◌, inl, inr, Bool, true, false, not, ◌&&◌, ◌||◌, none, some,
  List, [], ◌∷◌, arith, lookup, ◌==◌, if◌then◌else◌, Bool-cases, Option-cases, string_discrete,
  test,
}
use ntwire.Relay.Udp.Session.{AddrPort, Session}
use ntwire.Relay.Udp.Table.{Table, lookup_by_client_addr, session_for_port, bind_server}
use ntwire.Relay.Udp.Table.Indexes.{leg}
use ntwire.Relay.Udp.Table.Invariant.{IsConsistent}
use ntwire.Relay.Udp.Table.Demux.{lookup_by_client_addr_sound, session_for_port_iff}
use ntwire.Relay.Udp.Frames.{
  Bytes, decode_control_frame, valid_relay_datagram, valid_path_control, frame_relay_bind,
  frame_path_probe, frame_path_ack,
}
use ntwire.Relay.Udp.Forward.{
  DatagramRelay, Write, on_client_conn, on_server_conn, bind_ack, nothing, forward_from_client,
  bind_from_client, handle_client_datagram, forward_from_server, handle_server_datagram,
}

abbrev pub AllWrites : (Write → Type 0) → List Write → Type 0
AllWrites P [] = Unit
AllWrites P (w ∷ ws) = P w × AllWrites P ws

-- To the sender only an acknowledgement, and to a server only the datagram itself, at the address
-- that bound a live session whose client leg is locked to the sender.
abbrev pub FromClient : Bytes → AddrPort → Table → Write → Type 0
FromClient b from t (on_client_conn a p) = (a ≡ from) × (p ≡ bind_ack)
FromClient b from t (on_server_conn port a p) =
    (s : Session) × (lookup string_discrete s.token t.by_token ≡ some s)
    × (leg s ≡ some from)
    × (s.server_bound ≡ true)
    × (s.server_port ≡ port)
    × (s.server_addr ≡ a)
    × (p ≡ b)

-- On the server's port only an acknowledgement to the sender, and to a client only the datagram
-- itself, if the sender is the address that bound the server leg of the live session of the port,
-- at the address that its client leg is locked to.
abbrev pub FromServer : ℕ → Bytes → AddrPort → Table → Write → Type 0
FromServer port b from t (on_client_conn a p) =
    (s : Session) × (lookup string_discrete s.token t.by_token ≡ some s)
    × (s.server_port ≡ port)
    × (s.server_bound ≡ true)
    × (s.server_addr ≡ from)
    × (leg s ≡ some a)
    × (p ≡ b)
FromServer port b from t (on_server_conn q a p) = (q ≡ port) × (a ≡ from) × (p ≡ bind_ack)

-- What goes out on the pooled sockets.
abbrev pub to_servers : List Write → List Write
to_servers [] = []
to_servers (on_client_conn a p ∷ ws) = to_servers ws
to_servers (on_server_conn port a p ∷ ws) = on_server_conn port a p ∷ to_servers ws

-- What a relay carries: a datagram of a valid size that is no control frame, or a path probe or its
-- acknowledgement.
abbrev pub is_carried : Bytes → Bool
is_carried b = elim (decode_control_frame b) [
  | none ↦ valid_relay_datagram b
  | some (typ, payload) ↦ not (typ == frame_relay_bind) && valid_path_control typ payload
]

-- The datagram, to the server of the sender's session, if the server has bound it.
abbrev pub delivered : Bytes → AddrPort → Table → List Write
delivered b from t = elim (lookup_by_client_addr from t) [
  | none ↦ []
  | some s ↦ if s.server_bound then on_server_conn s.server_port s.server_addr b ∷ [] else []
]

if-AllWrites :
    (P : Write → Type 0) (c : Bool) (x y : DatagramRelay × List Write)
    → AllWrites P x.1
    → AllWrites P y.1
    → AllWrites P (if c then x else y).1
if-AllWrites P true x y p q = p
if-AllWrites P false x y p q = q

module _ (text : Bytes → String) (now : ℕ) (sent : Bool) (d : DatagramRelay)
    (v : IsConsistent d.sessions) where
  forward_from_client-permitted :
      (b : Bytes) (from : AddrPort)
      → AllWrites (FromClient b from d.sessions) (forward_from_client text now sent b from d).1
  unfolding forward_from_client
  forward_from_client-permitted b from =
      elim (Option-cases (lookup_by_client_addr from d.sessions)) [
        | inl e ↦ rw (e, AllWrites) tt
        | inr (s, e) ↦
            let (live, locked) = lookup_by_client_addr_sound d.sessions v from s e in
            elim (Bool-cases s.server_bound) [
              | inl bound ↦
                  rw (e, bound, AllWrites) ((s, live, locked, bound, refl, refl, refl), tt)
              | inr half ↦ rw (e, half, AllWrites) tt
            ]
      ]

  bind_from_client-permitted :
      (b payload : Bytes) (from : AddrPort)
      → AllWrites (FromClient b from d.sessions) (bind_from_client text now sent payload from d).1
  unfolding bind_from_client
  bind_from_client-permitted b payload from = elim cases [
    | inl e ↦ subst (AllWrites (FromClient b from d.sessions)) (sym e) tt
    | inr e ↦ subst (AllWrites (FromClient b from d.sessions)) (sym e) ((refl, refl), tt)
  ]
    where
      cases :
          ((bind_from_client text now sent payload from d).1 ≡ [])
          ⊎ ((bind_from_client text now sent payload from d).1 ≡ on_client_conn from bind_ack ∷ [])
      cases = ground arith

  forward_from_client-delivered :
      (b : Bytes) (from : AddrPort)
      → to_servers (forward_from_client text now sent b from d).1 ≡ delivered b from d.sessions
  unfolding forward_from_client
  forward_from_client-delivered b from = ground arith

  bind_from_client-silent :
      (payload : Bytes) (from : AddrPort)
      → to_servers (bind_from_client text now sent payload from d).1 ≡ []
  unfolding bind_from_client
  bind_from_client-silent payload from = ground arith

  handle_client_datagram-delivered :
      (b : Bytes) (from : AddrPort)
      → to_servers (handle_client_datagram text now sent b from d).1
        ≡ (if is_carried b then delivered b from d.sessions else [])
  unfolding handle_client_datagram valid_path_control
  handle_client_datagram-delivered b from = elim (Option-cases (decode_control_frame b)) [
    | inl e ↦ ground (arith, e, forward_from_client-delivered b from)
    | inr ((typ, payload), e) ↦
        ground
          (arith, e, forward_from_client-delivered b from, bind_from_client-silent payload from)
  ]

  handle_client_datagram-writes :
      (b : Bytes) (from : AddrPort)
      → AllWrites (FromClient b from d.sessions) (handle_client_datagram text now sent b from d).1
  unfolding handle_client_datagram
  handle_client_datagram-writes b from =
      let forwarded = forward_from_client-permitted b from in
      let Q = FromClient b from d.sessions in
      elim (Option-cases (decode_control_frame b)) [
        | inl e ↦
            rw (e, AllWrites)
              (if-AllWrites Q (not (valid_relay_datagram b)) (nothing d)
                (forward_from_client text now sent b from d) tt forwarded)
        | inr ((typ, payload), e) ↦
            let probe =
              (typ == frame_path_probe || typ == frame_path_ack)
              && valid_path_control typ payload in
            rw (e, AllWrites)
              (if-AllWrites Q (typ == frame_relay_bind)
                (bind_from_client text now sent payload from d)
                (if probe then forward_from_client text now sent b from d else nothing d)
                (bind_from_client-permitted b payload from)
                (if-AllWrites Q probe (forward_from_client text now sent b from d) (nothing d)
                  forwarded tt))
      ]

  -- The client-facing socket is no open reflector. In a consistent table, for any datagram from any
  -- address: nothing but an acknowledgement goes back to the sender, and what goes to a server is
  -- the datagram itself, to the address that bound a live session whose client leg is locked to the
  -- sender. Where there is such an address, the datagram does go there, once, if it is of a valid
  -- size and no control frame, or if it is a well-formed path probe or acknowledgement; no other
  -- datagram goes to a server.
  pub handle_client_datagram-permitted :
      (b : Bytes) (from : AddrPort)
      → AllWrites (FromClient b from d.sessions) (handle_client_datagram text now sent b from d).1
        × (to_servers (handle_client_datagram text now sent b from d).1
            ≡ (if is_carried b then delivered b from d.sessions else []))
  handle_client_datagram-permitted b from =
      (handle_client_datagram-writes b from, handle_client_datagram-delivered b from)

  forward_from_server-permitted :
      (s : Session) (port : ℕ) (b : Bytes) (from : AddrPort)
      → session_for_port port d.sessions ≡ some s
      → AllWrites
          (FromServer port b from d.sessions)
          (forward_from_server text now sent s b from d).1
  unfolding forward_from_server
  forward_from_server-permitted s port b from e =
      let (live, at_port) = (session_for_port_iff d.sessions v port s).0 e in
      elim cases [
        | inl none_ ↦ subst (AllWrites (FromServer port b from d.sessions)) (sym none_) tt
        | inr (bound, locked, client, one) ↦
            subst (AllWrites (FromServer port b from d.sessions)) (sym one)
              ((s, live, at_port, bound, sym locked, rw client refl, refl), tt)
      ]
    where
      writes : List Write
      writes = (forward_from_server text now sent s b from d).1

      cases :
          (writes ≡ [])
          ⊎ ((s.server_bound ≡ true)
              × (from ≡ s.server_addr)
              × (s.client_bound ≡ true)
              × (writes ≡ on_client_conn s.client_addr b ∷ []))
      cases = ground arith

  -- A pooled socket is no open reflector. In a consistent table, for any datagram from any
  -- address: nothing but an acknowledgement goes back to the sender, and what goes to
  -- a client is the datagram itself, at the address that the client leg of the port's live session
  -- is locked to, from the address that bound its server leg.
  pub handle_server_datagram-permitted :
      (port : ℕ) (b : Bytes) (from : AddrPort)
      → AllWrites
          (FromServer port b from d.sessions)
          (handle_server_datagram text now sent port b from d).1
  unfolding handle_server_datagram
  handle_server_datagram-permitted port b from =
      let Q = FromServer port b from d.sessions in
      elim (Option-cases (session_for_port port d.sessions)) [
        | inl e ↦ rw (e, AllWrites) tt
        | inr (s, e) ↦
            let forwarded = forward_from_server-permitted s port b from e in
            let at_port = ((session_for_port_iff d.sessions v port s).0 e).1 in
            let forward = forward_from_server text now sent s b from d in
            elim (Option-cases (decode_control_frame b)) [
              | inl plain ↦
                  rw (e, plain, AllWrites)
                    (if-AllWrites Q (not (valid_relay_datagram b)) (nothing d) forward tt forwarded)
              | inr ((typ, payload), f) ↦
                  let probe =
                    (typ == frame_path_probe || typ == frame_path_ack)
                    && valid_path_control typ payload in
                  let bound : DatagramRelay × List Write = (
                    record d { sessions = (bind_server now s.token from d.sessions).0 },
                    on_server_conn s.server_port from bind_ack ∷ [],
                  ) in
                  let other = not (test (string_discrete (text payload) s.token)) in
                  rw (e, f, AllWrites)
                    (if-AllWrites Q (typ == frame_relay_bind) (if other then nothing d else bound)
                      (if probe then forward else nothing d)
                      (if-AllWrites Q other (nothing d) bound tt ((at_port, refl, refl), tt))
                      (if-AllWrites Q probe forward (nothing d) forwarded tt))
            ]
      ]
