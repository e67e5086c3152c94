-- ===== src/Relay/NativeWireguard/Bounds.antt =====
-- The bound of what a `nativeWGRelay` of pkg/relay/nativewg.go keeps of the packets it sees.
use ntwire.Base.{
  ℕ, ◌+◌, ◌≤◌, String, ◌≡◌, refl, sym, subst, Bool, true, false, ◌||◌, Option, none, some, [], ◌∷◌,
  arith, ℕ_discrete, length, Map, lookup, ltb, ◌==◌, if◌then◌else◌, is_text,
}
use ntwire.Relay.Udp.Frames.{Bytes, decode_control_frame}
use ntwire.Relay.Udp.Session.{AddrPort}
use ntwire.Relay.NativeWireguard.{
  Route, NativeWgRelay, new_native_wg_relay, native_wg_max_indices, issue, remove, associate,
  native_wg_route_ttl, from_server, from_client, learn, handle, write_entry, record_pair, set_route,
  is_server, valid_wg_packet, Sent, uint32_at,
}
use ntwire.Relay.NativeWireguard.Fifo.Rings.{
  IsRing, write_entry-IsRing, rewrite-IsRing, empty_ring-IsRing,
}
use ntwire.Relay.NativeWireguard.Tokens.{Step, issues, removes, handles, Reach, start, call}
use ntwire.Base.{is_text}

-- Both maps are bounded queues.
pub record IsBounded (n : NativeWgRelay) : Type 0 where
  pub indices_ring : IsRing n.indices
  pub pairs_ring : IsRing n.pairs

-- A route that is there is written over.
set_route-IsBounded :
    (k : ℕ) (old new : Route) (n : NativeWgRelay)
    → lookup ℕ_discrete k n.indices.entries ≡ some old
    → IsBounded n
    → IsBounded (set_route k new n)
set_route-IsBounded k old new n e h = record {
  indices_ring = rewrite-IsRing k new n.indices h.indices_ring (ground (arith, e));
  pairs_ring = h.pairs_ring;
}

record_pair-IsBounded :
    (server_idx client_idx : ℕ) (n : NativeWgRelay)
    → IsBounded n
    → IsBounded (record_pair server_idx client_idx n)
unfolding record_pair
record_pair-IsBounded server_idx client_idx n h = record {
  indices_ring = h.indices_ring;
  pairs_ring = write_entry-IsRing server_idx client_idx n.pairs h.pairs_ring;
}

learn-IsBounded :
    (now typ receiver : ℕ) (from : AddrPort) (n : NativeWgRelay)
    → IsBounded n
    → IsBounded (learn now typ receiver from n)
unfolding learn
learn-IsBounded now typ receiver from n h = step (typ == 1) (typ == 4 || typ == 3)
  where
    route : Route
    route = record { client = from; expires = now + native_wg_route_ttl }

    moved :
        (i : ℕ) (o : Option Route)
        → lookup ℕ_discrete i n.indices.entries ≡ o
        → IsBounded (elim o [ none ↦ n | some old ↦ set_route i route n ])
    moved i none e = h
    moved i (some old) e = set_route-IsBounded i old route n e h

    paired :
        (o : Option ℕ)
        → IsBounded (elim o [
          | none ↦ n
          | some client_idx ↦ elim (lookup ℕ_discrete client_idx n.indices.entries) [
            | none ↦ n
            | some old ↦ set_route client_idx route n
          ]
        ])
    paired none = h
    paired (some i) = moved i (lookup ℕ_discrete i n.indices.entries) refl

    step :
        (first transport : Bool)
        → IsBounded (
            if first
            then record n { indices = write_entry receiver route n.indices }
            else if transport
            then elim (lookup ℕ_discrete receiver n.pairs.entries) [
              | none ↦ n
              | some client_idx ↦ elim (lookup ℕ_discrete client_idx n.indices.entries) [
                | none ↦ n
                | some old ↦ set_route client_idx route n
              ]
            ]
            else n)
    step true t = record {
      indices_ring = write_entry-IsRing receiver route n.indices h.indices_ring;
      pairs_ring = h.pairs_ring;
    }
    step false true = paired (lookup ℕ_discrete receiver n.pairs.entries)
    step false false = h

from_server-IsBounded :
    (now : ℕ) (b : Bytes) (typ receiver : ℕ) (n : NativeWgRelay)
    → IsBounded n
    → IsBounded (from_server now b typ receiver n).0
unfolding from_server record_pair
from_server-IsBounded now b typ receiver n h =
    step (lookup ℕ_discrete receiver n.indices.entries) refl
  where
    paired : Bool → NativeWgRelay
    paired two = if two then record_pair (uint32_at 4 b) receiver n else n

    kept :
        (two : Bool) (old new : Route)
        → lookup ℕ_discrete receiver n.indices.entries ≡ some old
        → IsBounded (set_route receiver new (paired two))
    kept true old new e =
        set_route-IsBounded receiver old new (record_pair (uint32_at 4 b) receiver n) e
          (record_pair-IsBounded (uint32_at 4 b) receiver n h)
    kept false old new e = set_route-IsBounded receiver old new n e h

    renewed : Route → Route
    renewed route = record route { expires = now + native_wg_route_ttl }

    live :
        (c : Bool) (route : Route)
        → lookup ℕ_discrete receiver n.indices.entries ≡ some route
        → let r : NativeWgRelay × Sent =
            if c
            then (set_route receiver (renewed route) (paired (typ == 2)), some (b, route.client))
            else (n, none) in
          IsBounded r.0
    live true route e = kept (typ == 2) route (renewed route) e
    live false route e = h

    step :
        (o : Option Route)
        → lookup ℕ_discrete receiver n.indices.entries ≡ o
        → let r : NativeWgRelay × Sent = elim o [
          | none ↦ (n, none)
          | some route ↦
              if ltb now route.expires
              then (set_route receiver (renewed route) (paired (typ == 2)), some (b, route.client))
              else (n, none)
        ] in
          IsBounded r.0
    step none e = h
    step (some route) e = live (ltb now route.expires) route e

from_client-IsBounded :
    (now : ℕ) (b : Bytes) (typ receiver : ℕ) (from : AddrPort) (n : NativeWgRelay)
    → IsBounded n
    → IsBounded (from_client now b typ receiver from n).0
unfolding from_client
from_client-IsBounded now b typ receiver from n h = step n.servers
  where
    valid :
        (zero_addr : Bool) (server : AddrPort)
        → let r : NativeWgRelay × Sent =
            if zero_addr then (n, none) else (learn now typ receiver from n, some (b, server)) in
          IsBounded r.0
    valid true server = h
    valid false server = learn-IsBounded now typ receiver from n h

    step :
        (l : Map String AddrPort)
        → let r : NativeWgRelay × Sent = elim l [
          | [] ↦ (n, none)
          | (tenant, server) ∷ m ↦
              if is_text server.addr ""
              then (n, none)
              else (learn now typ receiver from n, some (b, server))
        ] in
          IsBounded r.0
    step [] = h
    step ((tenant, server) ∷ m) = valid (is_text server.addr "") server

-- Tokens and servers are not counted.
associate-IsBounded :
    (typ : ℕ) (payload : Bytes) (from : AddrPort) (n : NativeWgRelay)
    → IsBounded n
    → IsBounded (associate typ payload from n)
unfolding associate
associate-IsBounded typ payload from n h =
    let same : ((associate typ payload from n).indices ≡ n.indices) = ground arith in
    let same_pairs : ((associate typ payload from n).pairs ≡ n.pairs) = ground arith in
    record {
      indices_ring = subst IsRing (sym same) h.indices_ring;
      pairs_ring = subst IsRing (sym same_pairs) h.pairs_ring;
    }

handle-IsBounded :
    (now : ℕ) (b : Bytes) (from : AddrPort) (n : NativeWgRelay)
    → IsBounded n
    → IsBounded (handle now b from n).0
unfolding handle
handle-IsBounded now b from n h = step (decode_control_frame b)
  where
    forwarded :
        (typ receiver : ℕ) (s : Bool)
        → let r : NativeWgRelay × Sent =
            if s then from_server now b typ receiver n else from_client now b typ receiver from n in
          IsBounded r.0
    forwarded typ receiver true = from_server-IsBounded now b typ receiver n h
    forwarded typ receiver false = from_client-IsBounded now b typ receiver from n h

    packet :
        (o : Option (ℕ × ℕ))
        → let r : NativeWgRelay × Sent = elim o [
          | none ↦ (n, none)
          | some (typ, receiver) ↦
              if is_server from n.servers
              then from_server now b typ receiver n
              else from_client now b typ receiver from n
        ] in
          IsBounded r.0
    packet none = h
    packet (some (typ, receiver)) = forwarded typ receiver (is_server from n.servers)

    step :
        (o : Option (ℕ × Bytes))
        → let r : NativeWgRelay × Sent = elim o [
          | some (typ, payload) ↦ (associate typ payload from n, none)
          | none ↦ elim (valid_wg_packet b) [
            | none ↦ (n, none)
            | some (typ, receiver) ↦
                if is_server from n.servers
                then from_server now b typ receiver n
                else from_client now b typ receiver from n
          ]
        ] in
          IsBounded r.0
    step (some (typ, payload)) = associate-IsBounded typ payload from n h
    step none = packet (valid_wg_packet b)

Step-IsBounded : (n m : NativeWgRelay) → Step n m → IsBounded n → IsBounded m
unfolding issue remove
Step-IsBounded n _ (issues tenant token _ fresh) h = record {
  indices_ring = h.indices_ring;
  pairs_ring = h.pairs_ring;
}
Step-IsBounded n _ (removes tenant token _) h =
    let same : ((remove tenant token n).indices ≡ n.indices) = ground arith in
    let same_pairs : ((remove tenant token n).pairs ≡ n.pairs) = ground arith in
    record {
      indices_ring = subst IsRing (sym same) h.indices_ring;
      pairs_ring = subst IsRing (sym same_pairs) h.pairs_ring;
    }
Step-IsBounded n _ (handles now b from _) h = handle-IsBounded now b from n h

Reach-IsBounded : (n : NativeWgRelay) → Reach n → IsBounded n
unfolding new_native_wg_relay
Reach-IsBounded _ start = record {
  indices_ring = empty_ring-IsRing;
  pairs_ring = empty_ring-IsRing;
}
Reach-IsBounded _ (call n m r step) = Step-IsBounded n m step (Reach-IsBounded n r)

-- After any calls and datagrams, at most 4096 routes and 4096 pairs are kept.
pub maps_bounded :
    (n : NativeWgRelay)
    → Reach n
    → (length n.indices.entries ≤ native_wg_max_indices)
      × (length n.pairs.entries ≤ native_wg_max_indices)
maps_bounded n r =
    let h = Reach-IsBounded n r in
    (
      omega (arith, h.indices_ring.sized, h.indices_ring.bounded),
      omega (arith, h.pairs_ring.sized, h.pairs_ring.bounded),
    )
