-- ===== src/Relay/NativeWireguard.antt =====
-- `nativeWGRelay` of pkg/relay/nativewg.go, the forwarding of one tenant's WireGuard packets. A token is
-- the bytes of its string, random in `issue` and an argument here. Each method is one step under the
-- mutex, given the clock's reading; `handle` gives what it writes. A `range` over the servers visits them
-- in the order of the map. The read loop and logging are left out.
pub mod Fifo
pub mod Tokens
pub mod Bounds
pub mod Forwarding
use ntwire.Base.{
  list_discrete, min, max, ℕ, zero, suc, ◌+◌, ◌-◌, ◌*◌, ◌/◌, ◌%◌, ◌^◌, ◌≤◌, ◌<◌, String, ◌≡◌, refl,
  sym, ap, subst, ◌∙◌, ◌≢◌, ◌↔◌, ◌⊎◌, inl, inr, ite, Bool, true, false, not, ◌&&◌, ◌||◌, Option,
  none, some, Memᴰ, List, [], ◌∷◌, ◌++◌, map, append_assoc, append-nil, arith, dec_lt, dec_le,
  ℕ_discrete, length, take, drop, set, length-set, length-append, take-append-drop, length-take,
  length-drop, take-length-append, drop-length-append, bit, count, count-append, Memᴰ-append_right,
  Map, tally, lookup, delete, insert, lookup-delete, lookup-insert, get_or, has, IsMap,
  delete-IsMap, insert-IsMap, delete_absent, tally-delete, length-delete, tally-insert_absent,
  tally-insert_present, bit-has-le, lookup-head, tally-delete-le, length-delete-le,
  length-insert-le, tally-insert-le, tail-lookup, tally_all, length-insert_absent, length-le-insert,
  lookup-insert_cases, ◌>>=◌, ◌>>◌, guard, ltb, leb, ◌==◌, if◌then◌else◌, Bool-cases, Option-cases,
  string_discrete, test, is_text, refuted,
}
use ntwire.Base.{is_text}
use ntwire.Relay.Udp.Frames.{Bytes, max_relay_datagram, decode_control_frame}
use ntwire.Relay.Udp.Session.{AddrPort, AddrPort-discrete}

pub record Route : Type 0 where
  pub client : AddrPort
  pub expires : ℕ

-- A map of at most `native_wg_max_indices` keys, the keys in their order, and the place of the oldest.
pub record Ring (V : Type 0) : Type 0 where
  pub entries : Map ℕ V
  pub order : List ℕ
  pub next : ℕ

pub record NativeWgRelay : Type 0 where
  pub tokens : Map Bytes String
  pub servers : Map String AddrPort
  pub indices : Ring Route
  pub pairs : Ring ℕ

abbrev pub native_wg_max_indices : ℕ
native_wg_max_indices = 4096

-- three minutes
abbrev pub native_wg_route_ttl : ℕ
native_wg_route_ttl = 180 * 10 ^ 9

abbrev pub frame_native_wireguard_associate : ℕ
frame_native_wireguard_associate = 6

abbrev pub empty_ring : {V : Type 0} → Ring V
empty_ring = record { entries = []; order = []; next = 0 }

unfoldable pub new_native_wg_relay : NativeWgRelay
new_native_wg_relay = record { tokens = []; servers = []; indices = empty_ring; pairs = empty_ring }

abbrev pub token_discrete : Discrete Bytes
token_discrete = list_discrete ℕ_discrete

-- the loop of `issue`: the tokens of other tenants
unfoldable pub without_tenant : String → Map Bytes String → Map Bytes String
without_tenant tenant [] = []
without_tenant tenant ((k, v) ∷ m) =
    let rest = without_tenant tenant m in if is_text v tenant then rest else (k, v) ∷ rest

unfoldable pub issue : String → Bytes → NativeWgRelay → NativeWgRelay
unfolding without_tenant
issue tenant token n = record n {
  tokens = insert token_discrete token tenant (without_tenant tenant n.tokens);
  servers = delete string_discrete tenant n.servers;
}

unfoldable pub remove : String → Bytes → NativeWgRelay → NativeWgRelay
remove tenant token n =
    if not (is_text (get_or token_discrete token n.tokens "") tenant) then n else record n {
      tokens = delete token_discrete token n.tokens;
      servers = delete string_discrete tenant n.servers;
    }

-- binary.LittleEndian.Uint32 of four bytes from a place on
abbrev pub read_uint32_le : Bytes → ℕ
read_uint32_le (b0 ∷ b1 ∷ b2 ∷ b3 ∷ b) = b0 + b1 * 2 ^ 8 + b2 * 2 ^ 16 + b3 * 2 ^ 24
read_uint32_le _ = 0

abbrev pub uint32_at : ℕ → Bytes → ℕ
uint32_at i b = read_uint32_le (drop i b)

-- the type and the receiver, or nothing
unfoldable pub valid_wg_packet : Bytes → Option (ℕ × ℕ)
valid_wg_packet b =
    let typ = uint32_at 0 b in
    if ltb (length b) 4
    then none
    else if typ == 1
    then (if length b == 148 then some (typ, uint32_at 4 b) else none)
    else if typ == 2
    then (if length b == 92 then some (typ, uint32_at 8 b) else none)
    else if typ == 3
    then (if length b == 64 then some (typ, uint32_at 4 b) else none)
    else if typ == 4
    then (if ltb (length b) 32 || ltb max_relay_datagram (length b)
        then none
        else some (typ, uint32_at 4 b))
    else none

-- n.indexOrder[n.nextIndex]
abbrev pub order_at : List ℕ → ℕ → ℕ
order_at [] i = 0
order_at (k ∷ ks) zero = k
order_at (k ∷ ks) (suc i) = order_at ks i

module _ {V : Type 0} where
  -- a place for a key, the oldest one's where all are taken
  unfoldable pub reserve : ℕ → Ring V → Ring V
  reserve k r =
      if has ℕ_discrete k r.entries
      then r
      else if length r.order == native_wg_max_indices
      then record {
        entries = delete ℕ_discrete (order_at r.order r.next) r.entries;
        order = set r.order r.next k;
        next = (r.next + 1) % length r.order;
      }
      else record r { order = r.order ++ (k ∷ []) }

  unfoldable pub write_entry : ℕ → V → Ring V → Ring V
  unfolding reserve
  write_entry k v r = let s = reserve k r in record s { entries = insert ℕ_discrete k v s.entries }

unfoldable pub record_pair : ℕ → ℕ → NativeWgRelay → NativeWgRelay
unfolding write_entry
record_pair server_idx client_idx n = record n { pairs = write_entry server_idx client_idx n.pairs }

unfoldable pub is_server : AddrPort → Map String AddrPort → Bool
is_server from [] = false
is_server from ((tenant, a) ∷ m) =
    let rest = is_server from m in if test (AddrPort-discrete from a) then true else rest

-- A route that is there already is written over.
abbrev pub set_route : ℕ → Route → NativeWgRelay → NativeWgRelay
set_route k route n = record n {
  indices = record (n.indices) { entries = insert ℕ_discrete k route n.indices.entries };
}

abbrev pub Sent : Type 0
Sent = Option (Bytes × AddrPort)

unfoldable pub associate : ℕ → Bytes → AddrPort → NativeWgRelay → NativeWgRelay
associate typ payload from n =
    if not (typ == frame_native_wireguard_associate) || ltb (length payload) 32
    then n
    else elim (lookup token_discrete payload n.tokens) [
      | none ↦ n
      | some tenant ↦ record n { servers = insert string_discrete tenant from n.servers }
    ]

module _ (now : ℕ) where
  unfoldable pub from_server : Bytes → ℕ → ℕ → NativeWgRelay → NativeWgRelay × Sent
  unfolding record_pair
  from_server b typ receiver n = elim (lookup ℕ_discrete receiver n.indices.entries) [
    | none ↦ (n, none)
    | some route ↦
        if ltb now route.expires
        then (
          set_route receiver (record route { expires = now + native_wg_route_ttl })
              (if typ == 2 then record_pair (uint32_at 4 b) receiver n else n),
          some (b, route.client),
        )
        else (n, none)
  ]

  -- what a client's packet teaches of its route
  unfoldable pub learn : ℕ → ℕ → AddrPort → NativeWgRelay → NativeWgRelay
  unfolding write_entry
  learn typ receiver from n =
      let route : Route = record { client = from; expires = now + native_wg_route_ttl } in
      if typ == 1
      then record n { indices = write_entry receiver route n.indices }
      else if typ == 4 || typ == 3
      then elim (lookup ℕ_discrete receiver n.pairs.entries) [
        | none ↦ n
        | some client_idx ↦ elim (lookup ℕ_discrete client_idx n.indices.entries) [
          | none ↦ n
          | some old ↦ set_route client_idx route n
        ]
      ]
      else n

  unfoldable pub from_client : Bytes → ℕ → ℕ → AddrPort → NativeWgRelay → NativeWgRelay × Sent
  unfolding learn
  from_client b typ receiver from n = elim (n.servers) [
    | [] ↦ (n, none)
    | (tenant, server) ∷ m ↦
        if is_text server.addr "" then (n, none) else (learn typ receiver from n, some (b, server))
  ]

  unfoldable pub handle : Bytes → AddrPort → NativeWgRelay → NativeWgRelay × Sent
  unfolding associate valid_wg_packet from_server from_client is_server
  handle b from n = elim (decode_control_frame b) [
    | some (typ, payload) ↦ (associate typ payload from n, none)
    | none ↦ elim (valid_wg_packet b) [
      | none ↦ (n, none)
      | some (typ, receiver) ↦
          if is_server from n.servers
          then from_server b typ receiver n
          else from_client b typ receiver from n
    ]
  ]
