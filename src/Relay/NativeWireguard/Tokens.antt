-- ===== src/Relay/NativeWireguard/Tokens.antt =====
-- The life of a `nativeWGRelay` of pkg/relay/nativewg.go: who may receive packets, and until when. A token
-- that `issue` makes is not one that stands already, as 32 random bytes are not.
use ntwire.Base.{
  ℕ, String, ◌≡◌, refl, sym, ap, subst, ◌∙◌, ◌≢◌, ◌⊎◌, inl, inr, ite, Bool, true, false, not, ◌||◌,
  Option, none, some, List, [], ◌∷◌, arith, length, Map, lookup, delete, insert, lookup-delete,
  lookup-insert, get_or, IsMap, delete-IsMap, insert-IsMap, lookup-insert_cases, ltb, ◌==◌,
  if◌then◌else◌, string_discrete, test,
}
use ntwire.Relay.Udp.Frames.{Bytes, decode_control_frame}
use ntwire.Relay.Udp.Session.{AddrPort}
use ntwire.Relay.NativeWireguard.{
  NativeWgRelay, new_native_wg_relay, token_discrete, without_tenant, issue, remove, associate,
  from_server, from_client, learn, handle, record_pair, is_server, valid_wg_packet,
  frame_native_wireguard_associate, Sent,
}

pub data Step : NativeWgRelay → NativeWgRelay → Type 0 where
  issues :
      (tenant : String) (token : Bytes) (n : NativeWgRelay)
      → lookup token_discrete token n.tokens ≡ none
      → Step n (issue tenant token n)
  removes : (tenant : String) (token : Bytes) (n : NativeWgRelay) → Step n (remove tenant token n)
  handles :
      (now : ℕ) (b : Bytes) (from : AddrPort) (n : NativeWgRelay) → Step n (handle now b from n).0

pub data Reach : NativeWgRelay → Type 0 where
  start : Reach new_native_wg_relay
  call : (n m : NativeWgRelay) → Reach n → Step n m → Reach m

-- A tenant with a server has a token, and no tenant has two.
pub record IsOwned (n : NativeWgRelay) : Type 0 where
  pub keyed : IsMap token_discrete n.tokens
  pub owned :
      (tenant : String) (a : AddrPort)
      → lookup string_discrete tenant n.servers ≡ some a
      → (token : Bytes) × (lookup token_discrete token n.tokens ≡ some tenant)
  pub unique :
      (tenant : String) (t u : Bytes)
      → lookup token_discrete t n.tokens ≡ some tenant
      → lookup token_discrete u n.tokens ≡ some tenant
      → t ≡ u

without_tenant-absent :
    (tenant : String) (k : Bytes) (m : Map Bytes String)
    → lookup token_discrete k m ≡ none
    → lookup token_discrete k (without_tenant tenant m) ≡ none
unfolding without_tenant lookup
without_tenant-absent tenant k [] e = refl
without_tenant-absent tenant k ((j, v) ∷ m) e = ground (arith, without_tenant-absent tenant k m, e)

without_tenant-IsMap :
    (tenant : String) (m : Map Bytes String)
    → IsMap token_discrete m
    → IsMap token_discrete (without_tenant tenant m)
unfolding without_tenant
without_tenant-IsMap tenant [] h = tt
without_tenant-IsMap tenant ((j, v) ∷ m) (fresh, h) =
    ground (arith, without_tenant-IsMap tenant m h, without_tenant-absent tenant j m fresh)

without_tenant-kept :
    (tenant : String) (k : Bytes) (v : String) (m : Map Bytes String)
    → lookup token_discrete k m ≡ some v
    → v ≢ tenant
    → lookup token_discrete k (without_tenant tenant m) ≡ some v
unfolding without_tenant lookup
without_tenant-kept tenant k v [] e ne = absurd (grind (arith, e))
without_tenant-kept tenant k v ((j, w) ∷ m) e ne =
    ground (arith, without_tenant-kept tenant k v m, e, ne)

without_tenant-from :
    (tenant : String) (k : Bytes) (v : String) (m : Map Bytes String)
    → IsMap token_discrete m
    → lookup token_discrete k (without_tenant tenant m) ≡ some v
    → (lookup token_discrete k m ≡ some v) × (v ≢ tenant)
unfolding without_tenant lookup
without_tenant-from tenant k v [] h e = absurd (grind (arith, e))
without_tenant-from tenant k v ((j, w) ∷ m) (fresh, h) e =
    step (string_discrete w tenant) e (without_tenant-from tenant k v m h)
  where
    left : Bool → Map Bytes String
    left b = if b then without_tenant tenant m else (j, w) ∷ without_tenant tenant m

    dropped :
        (c : Dec (j ≡ k))
        → (lookup token_discrete k m ≡ some v) × (v ≢ tenant)
        → (ite c (some w) (lookup token_discrete k m) ≡ some v) × (v ≢ tenant)
    dropped (yes q) (f, ne) =
        absurd (grind (arith, fresh, ap (λ x. lookup token_discrete x m) q ∙ f))
    dropped (no n) r = r

    kept :
        (c : Dec (j ≡ k))
        → w ≢ tenant
        → ite c (some w) (lookup token_discrete k (without_tenant tenant m)) ≡ some v
        → (lookup token_discrete k (without_tenant tenant m) ≡ some v
            → (lookup token_discrete k m ≡ some v) × (v ≢ tenant))
        → (ite c (some w) (lookup token_discrete k m) ≡ some v) × (v ≢ tenant)
    kept (yes q) n f ih = let same : w ≡ v = grind (arith, f) in (f, subst (λ x. x ≢ tenant) same n)
    kept (no q) n f ih = ih f

    step :
        (d : Dec (w ≡ tenant))
        → lookup token_discrete k (left (test d)) ≡ some v
        → (lookup token_discrete k (without_tenant tenant m) ≡ some v
            → (lookup token_discrete k m ≡ some v) × (v ≢ tenant))
        → (ite (token_discrete j k) (some w) (lookup token_discrete k m) ≡ some v) × (v ≢ tenant)
    step (yes p) f ih = dropped (token_discrete j k) (ih f)
    step (no n) f ih = kept (token_discrete j k) n f ih

-- A datagram leaves the tokens.
handle-tokens :
    (now : ℕ) (b : Bytes) (from : AddrPort) (n : NativeWgRelay)
    → (handle now b from n).0.tokens ≡ n.tokens
unfolding handle associate from_server from_client learn record_pair
handle-tokens now b from n = ground arith

learn-servers :
    (now typ receiver : ℕ) (from : AddrPort) (n : NativeWgRelay)
    → (learn now typ receiver from n).servers ≡ n.servers
unfolding learn
learn-servers now typ receiver from n = ground arith

-- A datagram leaves the servers, or it writes the sender as the server of a token that stands.
pub data Associates (n m : NativeWgRelay) : Type 0 where
  stays : m.servers ≡ n.servers → Associates n m
  writes :
      (token : Bytes) (tenant : String) (from : AddrPort)
      → lookup token_discrete token n.tokens ≡ some tenant
      → m.servers ≡ insert string_discrete tenant from n.servers
      → Associates n m

associate-Associates :
    (typ : ℕ) (payload : Bytes) (from : AddrPort) (n : NativeWgRelay)
    → Associates n (associate typ payload from n)
unfolding associate
associate-Associates typ payload from n =
    step (not (typ == frame_native_wireguard_associate) || ltb (length payload) 32)
  where
    named :
        (o : Option String)
        → lookup token_discrete payload n.tokens ≡ o
        → Associates n (elim o [
          | none ↦ n
          | some tenant ↦ record n { servers = insert string_discrete tenant from n.servers }
        ])
    named none e = stays refl
    named (some tenant) e = writes payload tenant from e refl

    step :
        (b : Bool)
        → Associates n (
            if b then n else elim (lookup token_discrete payload n.tokens) [
              | none ↦ n
              | some tenant ↦ record n { servers = insert string_discrete tenant from n.servers }
            ])
    step true = stays refl
    step false = named (lookup token_discrete payload n.tokens) refl

from_server-servers :
    (now : ℕ) (b : Bytes) (typ receiver : ℕ) (n : NativeWgRelay)
    → (from_server now b typ receiver n).0.servers ≡ n.servers
unfolding from_server record_pair
from_server-servers now b typ receiver n = ground arith

from_client-servers :
    (now : ℕ) (b : Bytes) (typ receiver : ℕ) (from : AddrPort) (n : NativeWgRelay)
    → (from_client now b typ receiver from n).0.servers ≡ n.servers
unfolding from_client
from_client-servers now b typ receiver from n =
    ground (arith, learn-servers now typ receiver from n)

pub handle-Associates :
    (now : ℕ) (b : Bytes) (from : AddrPort) (n : NativeWgRelay)
    → Associates n (handle now b from n).0
unfolding handle
handle-Associates now b from n = step (decode_control_frame b)
  where
    forwarded :
        (typ receiver : ℕ) (s : Bool)
        → let r : NativeWgRelay × Sent =
            if s then from_server now b typ receiver n else from_client now b typ receiver from n in
          Associates n r.0
    forwarded typ receiver true = stays (from_server-servers now b typ receiver n)
    forwarded typ receiver false = stays (from_client-servers now b typ receiver from n)

    packet :
        (o : Option (ℕ × ℕ))
        → let r : NativeWgRelay × Sent = elim o [
          | none ↦ (n, none)
          | some (typ, receiver) ↦
              if is_server from n.servers
              then from_server now b typ receiver n
              else from_client now b typ receiver from n
        ] in
          Associates n r.0
    packet none = stays refl
    packet (some (typ, receiver)) = forwarded typ receiver (is_server from n.servers)

    step :
        (o : Option (ℕ × Bytes))
        → let r : NativeWgRelay × Sent = elim o [
          | some (typ, payload) ↦ (associate typ payload from n, none)
          | none ↦ elim (valid_wg_packet b) [
            | none ↦ (n, none)
            | some (typ, receiver) ↦
                if is_server from n.servers
                then from_server now b typ receiver n
                else from_client now b typ receiver from n
          ]
        ] in
          Associates n r.0
    step (some (typ, payload)) = associate-Associates typ payload from n
    step none = packet (valid_wg_packet b)

handle-IsOwned :
    (now : ℕ) (b : Bytes) (from : AddrPort) (n : NativeWgRelay)
    → IsOwned n
    → IsOwned (handle now b from n).0
handle-IsOwned now b from n h = record {
  keyed = subst (IsMap token_discrete) (sym same) h.keyed;
  owned = λ tenant a e.
      let (t, f) = owner tenant a (handle-Associates now b from n) e in
      (t, ap (lookup token_discrete t) same ∙ f);
  unique = λ tenant t u e f.
      h.unique tenant t u (sym (ap (lookup token_discrete t) same) ∙ e)
        (sym (ap (lookup token_discrete u) same) ∙ f);
}
  where
    m : NativeWgRelay
    m = (handle now b from n).0

    same : m.tokens ≡ n.tokens
    same = handle-tokens now b from n

    owner :
        (tenant : String) (a : AddrPort)
        → Associates n m
        → lookup string_discrete tenant m.servers ≡ some a
        → (t : Bytes) × (lookup token_discrete t n.tokens ≡ some tenant)
    owner tenant a (stays s) e = h.owned tenant a (sym (ap (lookup string_discrete tenant) s) ∙ e)
    owner tenant a (writes t named addr is s) e =
        elim (lookup-insert_cases string_discrete named tenant addr a n.servers
          (sym (ap (lookup string_discrete tenant) s) ∙ e)) [
            | inl (p, q) ↦ (t, is ∙ ap some p)
            | inr old ↦ h.owned tenant a old
          ]

-- What a deletion leaves.
lookup_left :
    {K V : Type 0} (dec : Discrete K) (k j : K) (v : V) (m : Map K V)
    → lookup dec j (delete dec k m) ≡ some v
    → (k ≢ j) × (lookup dec j m ≡ some v)
lookup_left dec k j v m e = ground (arith, lookup-delete dec k j m, e)

lookup_kept :
    {K V : Type 0} (dec : Discrete K) (k j : K) (v : V) (m : Map K V)
    → k ≢ j
    → lookup dec j m ≡ some v
    → lookup dec j (delete dec k m) ≡ some v
lookup_kept dec k j v m ne e = ground (arith, lookup-delete dec k j m, e, ne)

lookup_inserted :
    {K V : Type 0} (dec : Discrete K) (k j : K) (w v : V) (m : Map K V)
    → k ≢ j
    → lookup dec j m ≡ some v
    → lookup dec j (insert dec k w m) ≡ some v
lookup_inserted dec k j w v m ne e = ground (arith, lookup-insert dec k j w m, e, ne)

issue-IsOwned :
    (tenant : String) (token : Bytes) (n : NativeWgRelay)
    → lookup token_discrete token n.tokens ≡ none
    → IsOwned n
    → IsOwned (issue tenant token n)
unfolding issue
issue-IsOwned tenant token n fresh h = record {
  keyed =
      insert-IsMap token_discrete token tenant (without_tenant tenant n.tokens)
        (without_tenant-IsMap tenant n.tokens h.keyed);
  owned = λ who a e.
      let (other, old) = lookup_left string_discrete tenant who a n.servers e in
      let (t, f) = h.owned who a old in
      let differs : token ≢ t =
        λ q. grind (arith, fresh, ap (λ x. lookup token_discrete x n.tokens) q ∙ f) in
      (
        t,
        lookup_inserted token_discrete token t tenant who (without_tenant tenant n.tokens) differs
            (without_tenant-kept tenant t who n.tokens f (λ q. other (sym q))),
      );
  unique = λ who t u e f. elim (source who t e) [
    | inl (p, q) ↦ elim (source who u f) [ inl (r, _) ↦ sym p ∙ r | inr (_, ne) ↦ absurd (ne q) ]
    | inr (old, ne) ↦ elim (source who u f) [
      | inl (_, q) ↦ absurd (ne q)
      | inr (other, _) ↦ h.unique who t u old other
    ]
  ];
}
  where
    source :
        (who : String) (t : Bytes)
        → lookup token_discrete t
            (insert token_discrete token tenant (without_tenant tenant n.tokens))
          ≡ some who
        → ((token ≡ t) × (who ≡ tenant))
          ⊎ ((lookup token_discrete t n.tokens ≡ some who) × (who ≢ tenant))
    source who t e =
        elim (lookup-insert_cases token_discrete token t tenant who (without_tenant tenant n.tokens)
          e) [
            | inl new ↦ inl new
            | inr old ↦ inr (without_tenant-from tenant t who n.tokens h.keyed old)
          ]

remove-IsOwned :
    (tenant : String) (token : Bytes) (n : NativeWgRelay)
    → IsOwned n
    → IsOwned (remove tenant token n)
unfolding remove
remove-IsOwned tenant token n h =
    step (string_discrete (get_or token_discrete token n.tokens "") tenant)
  where
    removed : NativeWgRelay
    removed = record n {
      tokens = delete token_discrete token n.tokens;
      servers = delete string_discrete tenant n.servers;
    }

    well : get_or token_discrete token n.tokens "" ≡ tenant → IsOwned removed
    well is = record {
      keyed = delete-IsMap token_discrete token n.tokens h.keyed;
      owned = λ who a e.
          let (other, old) = lookup_left string_discrete tenant who a n.servers e in
          let (t, f) = h.owned who a old in
          let differs : token ≢ t = λ q. other (
            sym is
            ∙ ap (λ o. elim o [ none ↦ "" | some v ↦ v ])
                (ap (λ x. lookup token_discrete x n.tokens) q ∙ f)) in
          (t, lookup_kept token_discrete token t who n.tokens differs f);
      unique = λ who t u e f.
          h.unique who t u (lookup_left token_discrete token t who n.tokens e).1
            (lookup_left token_discrete token u who n.tokens f).1;
    }

    step :
        (d : Dec (get_or token_discrete token n.tokens "" ≡ tenant))
        → IsOwned (if not (test d) then n else removed)
    step (yes is) = well is
    step (no ne) = h

new-IsOwned : IsOwned new_native_wg_relay
unfolding new_native_wg_relay lookup
new-IsOwned = record {
  keyed = tt;
  owned = λ tenant a e. absurd (grind (arith, e));
  unique = λ tenant t u e f. absurd (grind (arith, e));
}

pub Reach-IsOwned : (n : NativeWgRelay) → Reach n → IsOwned n
Reach-IsOwned _ start = new-IsOwned
Reach-IsOwned _ (call n m r step) = go step (Reach-IsOwned n r)
  where
    go : {k : NativeWgRelay} → Step n k → IsOwned n → IsOwned k
    go (issues tenant token _ fresh) h = issue-IsOwned tenant token n fresh h
    go (removes tenant token _) h = remove-IsOwned tenant token n h
    go (handles now b from _) h = handle-IsOwned now b from n h

-- The relay after datagrams, with the time and the sender of each.
abbrev pub after_datagrams : List (ℕ × Bytes × AddrPort) → NativeWgRelay → NativeWgRelay
after_datagrams [] n = n
after_datagrams ((now, b, from) ∷ rest) n = after_datagrams rest (handle now b from n).0

-- The tenant has no token and no server.
IsRevoked : String → NativeWgRelay → Type 0
IsRevoked tenant n =
    ((t : Bytes) → lookup token_discrete t n.tokens ≢ some tenant)
    × (lookup string_discrete tenant n.servers ≡ none)

handle-IsRevoked :
    (tenant : String) (now : ℕ) (b : Bytes) (from : AddrPort) (n : NativeWgRelay)
    → IsRevoked tenant n
    → IsRevoked tenant (handle now b from n).0
unfolding IsRevoked
handle-IsRevoked tenant now b from n (no_token, no_server) = (
  λ t e. no_token t (sym (ap (lookup token_discrete t) (handle-tokens now b from n)) ∙ e),
  go (handle-Associates now b from n),
)
  where
    go : {m : NativeWgRelay} → Associates n m → lookup string_discrete tenant m.servers ≡ none
    go (stays s) = ap (lookup string_discrete tenant) s ∙ no_server
    go (writes t named addr is s) =
        let other : named ≢ tenant = λ q. no_token t (is ∙ ap some q) in
        ap (lookup string_discrete tenant) s
        ∙ ground
            (arith, lookup-insert string_discrete named tenant addr n.servers, other, no_server)

after_datagrams-IsRevoked :
    (tenant : String) (later : List (ℕ × Bytes × AddrPort)) (n : NativeWgRelay)
    → IsRevoked tenant n
    → IsRevoked tenant (after_datagrams later n)
after_datagrams-IsRevoked tenant [] n h = h
after_datagrams-IsRevoked tenant ((now, b, from) ∷ later) n h =
    after_datagrams-IsRevoked tenant later (handle now b from n).0
      (handle-IsRevoked tenant now b from n h)

remove-IsRevoked :
    (tenant : String) (token : Bytes) (n : NativeWgRelay)
    → IsOwned n
    → lookup token_discrete token n.tokens ≡ some tenant
    → IsRevoked tenant (remove tenant token n)
unfolding remove IsRevoked
remove-IsRevoked tenant token n h e =
    step (string_discrete (get_or token_discrete token n.tokens "") tenant)
  where
    removed : NativeWgRelay
    removed = record n {
      tokens = delete token_discrete token n.tokens;
      servers = delete string_discrete tenant n.servers;
    }

    step :
        (d : Dec (get_or token_discrete token n.tokens "" ≡ tenant))
        → IsRevoked tenant (if not (test d) then n else removed)
    step (yes is) = (
      λ t f.
          let (differs, old) = lookup_left token_discrete token t tenant n.tokens f in
          differs (h.unique tenant token t e old),
      ground (arith, lookup-delete string_discrete tenant tenant n.servers),
    )
    step (no ne) = absurd (ne (ap (λ o. elim o [ none ↦ "" | some v ↦ v ]) e))

-- After any calls, once a tenant's token is removed, no datagrams restore a server of that tenant, until
-- another token is issued.
pub revoked_token :
    (n : NativeWgRelay) (tenant : String) (token : Bytes) (later : List (ℕ × Bytes × AddrPort))
    → Reach n
    → lookup token_discrete token n.tokens ≡ some tenant
    → lookup string_discrete tenant (after_datagrams later (remove tenant token n)).servers ≡ none
unfolding IsRevoked
revoked_token n tenant token later r e =
    (after_datagrams-IsRevoked tenant later (remove tenant token n)
      (remove-IsRevoked tenant token n (Reach-IsOwned n r) e)).1
