-- ===== src/Server/RelayPool.antt =====
-- `RelayPool` of pkg/server/relaypool.go: the relays that a server is registered with, and the one that
-- is preferred. A member is its place in the list, where the code has a pointer; of a response it has
-- the fields that the pool reads. `stats` gives what `AllocationStats` says of each member's agent. `update`
-- has two critical sections, which are two functions here. The callbacks are all set; logging is left
-- out.
pub mod Preferred
pub mod World
pub mod First
pub mod Second
pub mod Publishing
pub mod Standby
use ntwire.Base.{
  list_discrete, pair_discrete, option_discrete, min, max, ℕ, zero, suc, ◌+◌, ◌-◌, ◌*◌, ◌/◌, ◌%◌,
  ◌^◌, ◌≤◌, ◌<◌, String, ◌≡◌, refl, sym, ap, subst, ◌∙◌, ◌≢◌, ◌↔◌, ◌⊎◌, inl, inr, ite, Bool, true,
  false, not, ◌&&◌, ◌||◌, Option, none, some, Memᴰ, List, [], ◌∷◌, ◌++◌, map, append_assoc,
  append-nil, arith, dec_lt, dec_le, ℕ_discrete, length, take, drop, set, length-set, length-append,
  take-append-drop, length-take, length-drop, take-length-append, drop-length-append, bit, count,
  count-append, Memᴰ-append_right, Map, tally, lookup, delete, insert, lookup-delete, lookup-insert,
  get_or, has, IsMap, delete-IsMap, insert-IsMap, delete_absent, tally-delete, length-delete,
  tally-insert_absent, tally-insert_present, bit-has-le, lookup-head, tally-delete-le,
  length-delete-le, length-insert-le, tally-insert-le, tail-lookup, tally_all, length-insert_absent,
  length-le-insert, lookup-insert_cases, ◌>>=◌, ◌>>◌, guard, ltb, leb, ◌==◌, if◌then◌else◌,
  Bool-cases, Option-cases, string_discrete, test, is_text, refuted,
}
use ntwire.Base.{is_text}

pub record Response : Type 0 where
  pub domain : String
  pub reflect_addr : String
  pub udp_relay_addr : String
  pub native_addr : String
  pub native_token : String

pub record Member : Type 0 where
  pub registered : Bool
  pub response : Response

abbrev pub Associations : Type 0
Associations = List (String × String)

-- What the callbacks for the preferred member are given.
pub record Snapshot : Type 0 where
  pub agent : Option ℕ
  pub reflect : String
  pub udp : String
  pub addr : String
  pub token : String

-- What the first section of `update` leaves to its second.
pub record Publication : Type 0 where
  pub at_revision : ℕ
  pub snapshot : Snapshot
  pub native : Associations

pub record Pool : Type 0 where
  pub members : List Member
  pub revision : ℕ
  pub preferred_pending : Bool
  pub native_set_pending : Bool
  pub closed : Bool
  pub pool_domain : String
  pub preferred : Option ℕ

abbrev pub empty_response : Response
empty_response = record {
  domain = "";
  reflect_addr = "";
  udp_relay_addr = "";
  native_addr = "";
  native_token = "";
}

unfoldable pub new_members : ℕ → List Member
new_members zero = []
new_members (suc n) = record { registered = false; response = empty_response } ∷ new_members n

unfoldable pub new_relay_pool : ℕ → Pool
unfolding new_members
new_relay_pool n = record {
  members = new_members n;
  revision = 0;
  preferred_pending = false;
  native_set_pending = false;
  closed = false;
  pool_domain = "";
  preferred = none;
}

abbrev pub is_native : Member → Bool
is_native m =
    m.registered
    && not (is_text m.response.native_addr "")
    && not (is_text m.response.native_token "")

unfoldable pub native_set : List Member → Associations
native_set [] = []
native_set (m ∷ ms) =
    let rest = native_set ms in
    if is_native m then (m.response.native_addr, m.response.native_token) ∷ rest else rest

abbrev pub member_at : List Member → ℕ → Option Member
member_at [] i = none
member_at (m ∷ ms) zero = some m
member_at (m ∷ ms) (suc i) = member_at ms i

-- The score, a float in the code, is the fraction of a numerator and a denominator: the two orders agree
-- below 2^25 allocations.
abbrev pub score : ℕ × ℕ → Member → ℕ × ℕ
score (success, failure) m =
    let no_udp = bit (is_text m.response.udp_relay_addr "") in
    if success + failure == 0
    then (no_udp, 1)
    else (no_udp * (success + failure) + failure, success + failure)

abbrev pub below : ℕ × ℕ → ℕ × ℕ → Bool
below (a, b) (c, d) = ltb (a * d) (c * b)

abbrev pub beats : ℕ × ℕ → Option (ℕ × (ℕ × ℕ)) → Bool
beats sc none = true
beats sc (some (i, best)) = below sc best

-- the loop of `choosePreferred` from a member on, with the best so far
unfoldable pub best_from : (ℕ → ℕ × ℕ) → ℕ → List Member → Option (ℕ × (ℕ × ℕ)) → Option ℕ
best_from stats i [] none = none
best_from stats i [] (some (j, sc)) = some j
best_from stats i (m ∷ ms) best =
    let sc = score (stats i) m in
    let next = if m.registered && beats sc best then some (i, sc) else best in
    best_from stats (suc i) ms next

unfoldable pub choose_preferred : (ℕ → ℕ × ℕ) → List Member → Option ℕ → Option ℕ
unfolding best_from
choose_preferred stats ms current =
    let best = best_from stats 0 ms none in
    elim current [
      | none ↦ best
      | some i ↦ elim (member_at ms i) [
        | none ↦ best
        | some m ↦ if m.registered then some i else best
      ]
    ]

abbrev pub empty_snapshot : Snapshot
empty_snapshot = record { agent = none; reflect = ""; udp = ""; addr = ""; token = "" }

-- the values of a member in its place
abbrev pub snapshot_at : ℕ → Option Member → Snapshot
snapshot_at i none = empty_snapshot
snapshot_at i (some m) = record {
  agent = some i;
  reflect = m.response.reflect_addr;
  udp = m.response.udp_relay_addr;
  addr = m.response.native_addr;
  token = m.response.native_token;
}

abbrev pub snapshot_of : List Member → Option ℕ → Snapshot
snapshot_of ms none = empty_snapshot
snapshot_of ms (some i) = snapshot_at i (member_at ms i)

abbrev pub same_member : Option ℕ → Option ℕ → Bool
same_member a b = test (option_discrete ℕ_discrete a b)

-- reflect.DeepEqual
abbrev pub same_set : Associations → Associations → Bool
same_set a b = test (list_discrete (pair_discrete string_discrete string_discrete) a b)

-- a preferred member's response that changes what is published
abbrev pub differs : Response → Response → Bool
differs old new =
    not (is_text old.reflect_addr new.reflect_addr)
    || not (is_text old.udp_relay_addr new.udp_relay_addr)
    || not (is_text old.native_addr new.native_addr)
    || not (is_text old.native_token new.native_token)

-- whether a registration for the pool's domain, or for none
abbrev pub is_accepted : Bool → Response → Pool → Bool
is_accepted registered response p =
    registered
    && not (
        not (is_text response.domain "")
        && not (is_text p.pool_domain "")
        && not (is_text response.domain p.pool_domain))

-- the end of the first section: the flags, the revision, and the values for the callbacks
unfoldable pub noted :
    Bool → Bool → List Member → Option ℕ → String → Pool → Pool × Option Publication
noted changed set_changed members preferred domain p =
    let revision = if changed || set_changed then p.revision + 1 else p.revision in
    (
      record {
        members = members;
        revision = revision;
        preferred_pending = p.preferred_pending || changed;
        native_set_pending = p.native_set_pending || set_changed;
        closed = p.closed;
        pool_domain = domain;
        preferred = preferred;
      },
      if changed || set_changed
          then some (record {
            at_revision = revision;
            snapshot = snapshot_of members preferred;
            native = native_set members;
          })
          else none,
    )

-- whether the values of the preferred member changed
abbrev pub is_changed : ℕ → Member → Bool → Response → Option ℕ → Option ℕ → Bool
is_changed i old ok response before after =
    not (same_member before after)
    || (same_member after (some i) && ok && differs old.response response)

-- the first section of `update`, for a member of the open pool
unfoldable pub record_member :
    (ℕ → ℕ × ℕ) → ℕ → Member → Bool → Response → Pool → Pool × Option Publication
unfolding native_set choose_preferred noted
record_member stats i old ok response p =
    let members = set p.members i (record { registered = ok; response = response }) in
    let preferred = choose_preferred stats members p.preferred in
    let domain =
      if ok && not (is_text response.domain "") && is_text p.pool_domain ""
      then response.domain
      else p.pool_domain in
    noted (is_changed i old ok response p.preferred preferred)
      (not (same_set (native_set p.members) (native_set members))) members preferred domain p

unfoldable pub update_first : (ℕ → ℕ × ℕ) → ℕ → Bool → Response → Pool → Pool × Option Publication
unfolding record_member
update_first stats i registered response p =
    if p.closed then (p, none) else elim (member_at p.members i) [
      | none ↦ (p, none)
      | some old ↦ record_member stats i old (is_accepted registered response p) response p
    ]

-- The second section of `update`: the values for the callbacks, where they are called.
unfoldable pub update_second : Publication → Pool → Pool × Option Snapshot × Option Associations
update_second t p =
    if not p.closed && p.revision == t.at_revision
    then (
      record p { preferred_pending = false; native_set_pending = false },
      if p.preferred_pending then some t.snapshot else none,
      if p.native_set_pending then some t.native else none,
    )
    else (p, none, none)

unfoldable pub healthy : List Member → Bool
healthy [] = false
healthy (m ∷ ms) = let rest = healthy ms in if m.registered then true else rest

unfoldable pub unregistered : List Member → List Member
unregistered [] = []
unregistered (m ∷ ms) = record m { registered = false } ∷ unregistered ms

-- The agents and the listener are closed after.
unfoldable pub close : Pool → Pool × Option Snapshot × Option Associations
unfolding unregistered
close p = if p.closed then (p, none, none) else (
  record p { closed = true; preferred = none; members = unregistered p.members },
  some empty_snapshot,
  some [],
)
