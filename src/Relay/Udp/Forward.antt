-- ===== src/Relay/Udp/Forward.antt =====
-- The forwarding of datagrams, `datagramRelay` of pkg/relay/udpforward.go: what each handler does to
-- the session table and the rate limiter, and what it sends. Whether a socket takes a datagram
-- whole is an argument, `sent`; `text` stands for the text of a payload's bytes. The read loops,
-- which call a handler for each datagram, and logging are left out.
pub mod Permission
use ntwire.Base.{
  min, max, ℕ, zero, suc, ◌+◌, ◌-◌, ◌*◌, ◌/◌, ◌%◌, ◌^◌, ◌≤◌, ◌<◌, String, ◌≡◌, refl, sym, ap, subst,
  ◌∙◌, ◌≢◌, ◌↔◌, ◌⊎◌, inl, inr, ite, Bool, true, false, not, ◌&&◌, ◌||◌, Option, none, some, Memᴰ,
  List, [], ◌∷◌, ◌++◌, map, append_assoc, append-nil, arith, dec_lt, dec_le, ℕ_discrete, length,
  take, drop, length-append, take-append-drop, length-take, length-drop, take-length-append,
  drop-length-append, bit, count, count-append, Memᴰ-append_right, Map, tally, lookup, delete,
  insert, lookup-delete, lookup-insert, get_or, has, IsMap, delete-IsMap, insert-IsMap,
  delete_absent, tally-delete, length-delete, tally-insert_absent, tally-insert_present, bit-has-le,
  lookup-head, tally-delete-le, length-delete-le, length-insert-le, tally-insert-le, tally_all,
  length-insert_absent, length-le-insert, ◌>>=◌, ◌>>◌, guard, ltb, leb, ◌==◌, if◌then◌else◌,
  Bool-cases, Option-cases, string_discrete, test, refuted,
}
use ntwire.AuthLimit.Sources
use ntwire.AuthLimit.Sources.{SourceLimiter, new_source_limiter, minute}
use ntwire.Relay.Udp.Session.{
  AddrPort, AddrPort-discrete, Session, touch, receive_from_client, forward_to_server,
  receive_from_server, forward_to_client,
}
use ntwire.Relay.Udp.Table.{
  Table, known_client_bind, bind_client, bind_server, lookup_by_client_addr, session_for_port,
}
use ntwire.Relay.Udp.Frames.{
  Bytes, frame_relay_bind, frame_relay_bind_ack, frame_path_probe, frame_path_ack,
  encode_control_frame, decode_control_frame, valid_relay_datagram, valid_path_control,
}

pub record DatagramRelay : Type 0 where
  pub sessions : Table
  pub rate : SourceLimiter

unfoldable pub new_datagram_relay : Table → ℕ → DatagramRelay
new_datagram_relay sessions max_new_binds_per_minute = record {
  sessions = sessions;
  rate = new_source_limiter max_new_binds_per_minute minute 0;
}

-- A datagram that is written: on the client-facing socket, or on the pooled socket of a port.
pub data Write : Type 0 where
  on_client_conn : AddrPort → Bytes → Write
  on_server_conn : ℕ → AddrPort → Bytes → Write

-- The session behind a pointer, changed where it is.
abbrev pub with_session : Session → DatagramRelay → DatagramRelay
with_session s d = record d {
  sessions = record d.sessions { by_token = insert string_discrete s.token s d.sessions.by_token };
}

abbrev pub nothing : DatagramRelay → DatagramRelay × List Write
nothing d = (d, [])

abbrev pub bind_ack : Bytes
bind_ack = encode_control_frame frame_relay_bind_ack []

module _ (text : Bytes → String) (now : ℕ) (sent : Bool) where
  unfoldable pub forward_from_client : Bytes → AddrPort → DatagramRelay → DatagramRelay × List Write
  forward_from_client b from d = elim (lookup_by_client_addr from d.sessions) [
    | none ↦ nothing d
    | some sess ↦
        let received = receive_from_client (length b) sess in
        if not sess.server_bound
        then (with_session received d, [])
        else let touched = touch now received in
          (
            with_session (if sent then forward_to_server (length b) touched else touched) d,
            on_server_conn sess.server_port sess.server_addr b ∷ [],
          )
  ]

  unfoldable pub bind_from_client : Bytes → AddrPort → DatagramRelay → DatagramRelay × List Write
  bind_from_client payload from d =
      let known = known_client_bind (text payload) from d.sessions in
      let (rate, admitted) = Sources.allow now from.addr d.rate in
      let limited : DatagramRelay = if known then d else record d { rate = rate } in
      if not known && not admitted
      then nothing limited
      else let (sessions, bound) = bind_client now (text payload) from limited.sessions in
        elim bound [
          | none ↦ nothing limited
          | some sess ↦ (record limited { sessions = sessions }, on_client_conn from bind_ack ∷ [])
        ]

  unfoldable pub handle_client_datagram :
      Bytes → AddrPort → DatagramRelay → DatagramRelay × List Write
  handle_client_datagram b from d = elim (decode_control_frame b) [
    | none ↦ if not (valid_relay_datagram b) then nothing d else forward_from_client b from d
    | some (typ, payload) ↦
        if typ == frame_relay_bind
        then bind_from_client payload from d
        else if (typ == frame_path_probe || typ == frame_path_ack) && valid_path_control typ payload
        then forward_from_client b from d
        else nothing d
  ]

  unfoldable pub forward_from_server :
      Session → Bytes → AddrPort → DatagramRelay → DatagramRelay × List Write
  forward_from_server sess b from d =
      if not sess.server_bound
        || not (test (AddrPort-discrete from sess.server_addr))
        || not sess.client_bound
      then nothing d
      else let touched = touch now (receive_from_server (length b) sess) in
        (
          with_session (if sent then forward_to_client (length b) touched else touched) d,
          on_client_conn sess.client_addr b ∷ [],
        )

  unfoldable pub handle_server_datagram :
      ℕ → Bytes → AddrPort → DatagramRelay → DatagramRelay × List Write
  handle_server_datagram port b from d = elim (session_for_port port d.sessions) [
    | none ↦ nothing d
    | some sess ↦ elim (decode_control_frame b) [
      | none ↦ if not (valid_relay_datagram b) then nothing d else forward_from_server sess b from d
      | some (typ, payload) ↦
          if typ == frame_relay_bind
          then if not (test (string_discrete (text payload) sess.token)) then nothing d else (
            record d { sessions = (bind_server now sess.token from d.sessions).0 },
            on_server_conn sess.server_port from bind_ack ∷ [],
          )
          else if (typ == frame_path_probe || typ == frame_path_ack)
              && valid_path_control typ payload
          then forward_from_server sess b from d
          else nothing d
    ]
  ]
