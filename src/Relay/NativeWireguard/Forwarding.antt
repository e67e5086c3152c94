-- ===== src/Relay/NativeWireguard/Forwarding.antt =====
-- Where `handle` of pkg/relay/nativewg.go sends, and the bound of what it keeps.
use ntwire.Base.{
  ◌≤◌, ℕ, ◌+◌, ◌<◌, String, ◌≡◌, refl, ap, ◌∙◌, Bool, true, false, Option, none, some, [], ◌∷◌,
  arith, ℕ_discrete, Map, lookup, lookup-head, ltb, ◌==◌, if◌then◌else◌, string_discrete, is_text,
}
use ntwire.Base.{is_text}
use ntwire.Relay.Udp.Frames.{Bytes, decode_control_frame}
use ntwire.Relay.Udp.Session.{AddrPort}
use ntwire.Relay.NativeWireguard.{
  native_wg_route_ttl, Route, NativeWgRelay, token_discrete, associate, from_server, from_client,
  learn, handle, record_pair, set_route, is_server, valid_wg_packet, Sent, uint32_at,
}
use ntwire.Relay.NativeWireguard.Tokens.{Reach, IsOwned, Reach-IsOwned}

-- A packet of a server goes to the client of a route that has not ended, any other to a server of a tenant
-- with a token that stands. What is sent is the packet, of a valid WireGuard form. Nothing is sent for
-- a control frame, for a packet of no valid form, for a server's packet without a live route, and for
-- a client's packet while no server is known or the first one known has no address.
pub data IsPermitted (now : ℕ) (b : Bytes) (from : AddrPort) (n : NativeWgRelay)
    : Sent → Type 0 where
  control :
      (frame : ℕ × Bytes) → decode_control_frame b ≡ some frame → IsPermitted now b from n none
  malformed :
      decode_control_frame b ≡ none → valid_wg_packet b ≡ none → IsPermitted now b from n none
  no_route :
      (typ receiver : ℕ)
      → valid_wg_packet b ≡ some (typ, receiver)
      → is_server from n.servers ≡ true
      → ((route : Route)
          → lookup ℕ_discrete receiver n.indices.entries ≡ some route
          → route.expires ≤ now)
      → IsPermitted now b from n none
  no_server : is_server from n.servers ≡ false → n.servers ≡ [] → IsPermitted now b from n none
  no_address :
      (tenant : String) (server : AddrPort) (m : Map String AddrPort)
      → is_server from n.servers ≡ false
      → n.servers ≡ (tenant, server) ∷ m
      → server.addr ≡ ""
      → IsPermitted now b from n none
  to_client :
      (typ receiver : ℕ) (route : Route)
      → valid_wg_packet b ≡ some (typ, receiver)
      → is_server from n.servers ≡ true
      → lookup ℕ_discrete receiver n.indices.entries ≡ some route
      → now < route.expires
      → IsPermitted now b from n (some (b, route.client))
  to_server :
      (typ receiver : ℕ) (tenant : String) (token : Bytes) (server : AddrPort)
      → valid_wg_packet b ≡ some (typ, receiver)
      → is_server from n.servers ≡ false
      → lookup string_discrete tenant n.servers ≡ some server
      → lookup token_discrete token n.tokens ≡ some tenant
      → IsPermitted now b from n (some (b, server))

module _ (now : ℕ) (b : Bytes) (from : AddrPort) (n : NativeWgRelay) where
  from_server-IsPermitted :
      (typ receiver : ℕ)
      → valid_wg_packet b ≡ some (typ, receiver)
      → is_server from n.servers ≡ true
      → IsPermitted now b from n (from_server now b typ receiver n).1
  unfolding from_server
  from_server-IsPermitted typ receiver v s =
      step (lookup ℕ_discrete receiver n.indices.entries) refl
    where
      next : Route → NativeWgRelay
      next route =
          set_route receiver (record route { expires = now + native_wg_route_ttl })
            (if typ == 2 then record_pair (uint32_at 4 b) receiver n else n)

      live :
          (route : Route) (c : Bool)
          → lookup ℕ_discrete receiver n.indices.entries ≡ some route
          → ltb now route.expires ≡ c
          → let r : NativeWgRelay × Sent =
              if c then (next route, some (b, route.client)) else (n, none) in
            IsPermitted now b from n r.1
      live route true e l = to_client typ receiver route v s e (ground (arith, l))
      live route false e l = no_route typ receiver v s (λ other f. ground (arith, e, f, l))

      step :
          (o : Option Route)
          → lookup ℕ_discrete receiver n.indices.entries ≡ o
          → let r : NativeWgRelay × Sent = elim o [
            | none ↦ (n, none)
            | some route ↦
                if ltb now route.expires then (next route, some (b, route.client)) else (n, none)
          ] in
            IsPermitted now b from n r.1
      step none e = no_route typ receiver v s (λ other f. absurd (grind (arith, e, f)))
      step (some route) e = live route (ltb now route.expires) e refl

  from_client-IsPermitted :
      (typ receiver : ℕ)
      → IsOwned n
      → valid_wg_packet b ≡ some (typ, receiver)
      → is_server from n.servers ≡ false
      → IsPermitted now b from n (from_client now b typ receiver from n).1
  unfolding from_client
  from_client-IsPermitted typ receiver h v s = step n.servers refl
    where
      valid :
          (tenant : String) (server : AddrPort) (m : Map String AddrPort) (zero_addr : Bool)
          → n.servers ≡ (tenant, server) ∷ m
          → is_text server.addr "" ≡ zero_addr
          → let r : NativeWgRelay × Sent =
              if zero_addr then (n, none) else (learn now typ receiver from n, some (b, server)) in
            IsPermitted now b from n r.1
      valid tenant server m true e z = no_address tenant server m s e (ground (arith, z))
      valid tenant server m false e z =
          let here : lookup string_discrete tenant n.servers ≡ some server =
            ap (lookup string_discrete tenant) e ∙ lookup-head string_discrete tenant server m in
          let (token, held) = h.owned tenant server here in
          to_server typ receiver tenant token server v s here held

      step :
          (l : Map String AddrPort)
          → n.servers ≡ l
          → let r : NativeWgRelay × Sent = elim l [
            | [] ↦ (n, none)
            | (tenant, server) ∷ m ↦
                if is_text server.addr ""
                then (n, none)
                else (learn now typ receiver from n, some (b, server))
          ] in
            IsPermitted now b from n r.1
      step [] e = no_server s e
      step ((tenant, server) ∷ m) e = valid tenant server m (is_text server.addr "") e refl

  handle-IsPermitted_owned : IsOwned n → IsPermitted now b from n (handle now b from n).1
  unfolding handle
  handle-IsPermitted_owned h = step (decode_control_frame b) refl
    where
      forwarded :
          (typ receiver : ℕ) (s : Bool)
          → valid_wg_packet b ≡ some (typ, receiver)
          → is_server from n.servers ≡ s
          → let r : NativeWgRelay × Sent =
              if s
              then from_server now b typ receiver n
              else from_client now b typ receiver from n in
            IsPermitted now b from n r.1
      forwarded typ receiver true v s = from_server-IsPermitted typ receiver v s
      forwarded typ receiver false v s = from_client-IsPermitted typ receiver h v s

      packet :
          (o : Option (ℕ × ℕ))
          → decode_control_frame b ≡ none
          → valid_wg_packet b ≡ o
          → let r : NativeWgRelay × Sent = elim o [
            | none ↦ (n, none)
            | some (typ, receiver) ↦
                if is_server from n.servers
                then from_server now b typ receiver n
                else from_client now b typ receiver from n
          ] in
            IsPermitted now b from n r.1
      packet none plain v = malformed plain v
      packet (some (typ, receiver)) plain v =
          forwarded typ receiver (is_server from n.servers) v refl

      step :
          (o : Option (ℕ × Bytes))
          → decode_control_frame b ≡ o
          → let r : NativeWgRelay × Sent = elim o [
            | some (typ, payload) ↦ (associate typ payload from n, none)
            | none ↦ elim (valid_wg_packet b) [
              | none ↦ (n, none)
              | some (typ, receiver) ↦
                  if is_server from n.servers
                  then from_server now b typ receiver n
                  else from_client now b typ receiver from n
            ]
          ] in
            IsPermitted now b from n r.1
      step (some frame) e = control frame e
      step none e = packet (valid_wg_packet b) e refl

  -- After any calls, what `handle` sends is the packet it was given, and only where it may go: a server's
  -- packet to the client of a live route, any other packet to the server of a tenant with a live token.
  -- It sends nothing only for a control frame, for what is no valid packet, for a server's packet
  -- whose receiver has no live route, and for a client's packet while no server is known or the first
  -- one known has no address.
  pub handle-IsPermitted : Reach n → IsPermitted now b from n (handle now b from n).1
  handle-IsPermitted r = handle-IsPermitted_owned (Reach-IsOwned n r)
