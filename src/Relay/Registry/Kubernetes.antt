-- ===== src/Relay/Registry/Kubernetes.antt =====
-- Discovered Service endpoints in `Registry` of pkg/relay/registry.go: conflicts between Services
-- that claim one hostname, and the route of a connection.
pub mod Claims
pub mod History
use ntwire.Base.{
  min, max, ℕ, zero, suc, ◌+◌, ◌-◌, ◌*◌, ◌/◌, ◌%◌, ◌^◌, ◌≤◌, ◌<◌, String, ◌≡◌, refl, sym, ap, subst,
  ◌∙◌, ◌≢◌, ◌↔◌, ◌⊎◌, inl, inr, ite, Bool, true, false, not, ◌&&◌, ◌||◌, Option, none, some, List,
  [], ◌∷◌, ◌++◌, map, arith, dec_lt, dec_le, ℕ_discrete, length, take, drop, length-append,
  take-append-drop, length-take, length-drop, take-length-append, drop-length-append, count,
  count-append, bit, Map, tally, lookup, delete, insert, lookup-delete, lookup-insert, get_or, has,
  IsMap, delete-IsMap, insert-IsMap, delete_absent, tally-delete, length-delete,
  tally-insert_absent, tally-insert_present, bit-has-le, lookup-head, tally-delete-le,
  length-delete-le, length-insert-le, tally-insert-le, tally_all, length-insert_absent, ltb, leb,
  ◌==◌, if◌then◌else◌, Bool-cases, Option-cases, string_discrete, test,
}
use ntwire.Relay.Limits.{Limits}
use ntwire.Relay.Registry.{
  Source, kubernetes, static, outbound, ServerEndpoint, TenantState, no_tenant, Registry, tenant_of,
  Agent, put_usage,
}

pub data UpsertError : Type 0 where
  invalid_endpoint duplicate_hostname : UpsertError

abbrev is_kubernetes : Source → Bool
is_kubernetes kubernetes = true
is_kubernetes _ = false

abbrev is_empty : String → Bool
is_empty s = test (string_discrete s "")

-- r.conflicts[hostname][ep.ID] = ep, begun with the endpoint that stood there
abbrev add_conflict : ServerEndpoint → Map String ServerEndpoint → Registry → Registry
add_conflict ep c r = record r {
  conflicts = insert string_discrete ep.hostname (insert string_discrete ep.id ep c) r.conflicts;
}

-- The conflict set of a hostname. An entry that is there with no endpoint in it is a Go map, not nil.
abbrev pub conflict_of : String → Registry → Option (Map String ServerEndpoint)
conflict_of hostname r = lookup string_discrete hostname r.conflicts

abbrev with_old : ServerEndpoint → Option (Map String ServerEndpoint) → Map String ServerEndpoint
with_old old none = (old.id, old) ∷ []
with_old old (some c) = c

abbrev is_other : ServerEndpoint → Option ServerEndpoint → Bool
is_other ep none = false
is_other ep (some old) = not (test (string_discrete old.id ep.id))

pub upsert_known : ServerEndpoint → Option ServerEndpoint → Registry → Registry × Option UpsertError
upsert_known ep (some old) r =
    if is_other ep (some old)
    then (
      record (add_conflict ep (with_old old (conflict_of ep.hostname r)) r) {
        kubernetes = delete string_discrete ep.hostname r.kubernetes;
      },
      some duplicate_hostname,
    )
    else elim (conflict_of ep.hostname r) [
      | some c ↦ (add_conflict ep c r, some duplicate_hostname)
      | none ↦ (record r { kubernetes = insert string_discrete ep.hostname ep r.kubernetes }, none)
    ]
upsert_known ep none r = elim (conflict_of ep.hostname r) [
  | some c ↦ (add_conflict ep c r, some duplicate_hostname)
  | none ↦ (record r { kubernetes = insert string_discrete ep.hostname ep r.kubernetes }, none)
]

unfoldable pub upsert : ServerEndpoint → Registry → Registry × Option UpsertError
unfolding upsert_known
upsert ep r =
    if not (is_kubernetes ep.source)
      || is_empty ep.hostname
      || is_empty ep.address
      || is_empty ep.id
    then (r, some invalid_endpoint)
    else upsert_known ep (lookup string_discrete ep.hostname r.kubernetes) r

-- the second half of `RemoveKubernetes`: one claimant left is unambiguous again
pub settle : String → Map String ServerEndpoint → Registry → Registry
settle hostname [] r = record r { conflicts = delete string_discrete hostname r.conflicts }
settle hostname ((_, ep) ∷ []) r = record r {
  kubernetes = insert string_discrete hostname ep r.kubernetes;
  conflicts = delete string_discrete hostname r.conflicts;
}
settle hostname (e ∷ f ∷ c) r = record r {
  conflicts = insert string_discrete hostname (e ∷ f ∷ c) r.conflicts;
}

abbrev is_claim_of : String → Option ServerEndpoint → Bool
is_claim_of id none = false
is_claim_of id (some ep) = test (string_discrete ep.id id)

abbrev without_claim : String → String → Registry → Registry
without_claim hostname id r =
    if is_claim_of id (lookup string_discrete hostname r.kubernetes)
    then record r { kubernetes = delete string_discrete hostname r.kubernetes }
    else r

unfoldable pub remove : String → String → Registry → Registry
unfolding settle
remove hostname id r =
    let r' = without_claim hostname id r in
    elim (conflict_of hostname r) [
      | none ↦ r'
      | some c ↦ settle hostname (delete string_discrete id c) r'
    ]

-- Where `OpenSNI` sends a connection.
pub data Route : Type 0 where
  to_tenant : String → Route
  to_service : ServerEndpoint → Route
  unknown : Route

abbrev pub is_active : Option TenantState → Bool
is_active none = false
is_active (some t) = elim t.agent [ none ↦ false | some a ↦ true ]

unfoldable pub route : String → String → Registry → Route
route tenant hostname r =
    if not (is_empty tenant) && is_active (tenant_of tenant r)
    then to_tenant tenant
    else elim (lookup string_discrete hostname r.kubernetes) [
      | some ep ↦ to_service ep
      | none ↦ if is_empty tenant then unknown else to_tenant tenant
    ]

abbrev usage_of : String → Registry → TenantState
usage_of key r = get_or string_discrete key r.discovered_usage no_tenant

-- a cap of 0 is no cap here
abbrev is_full : Limits → TenantState → Bool
is_full l u =
    ltb 0 l.max_pending_per_server && leb l.max_pending_per_server u.pending
    || ltb 0 l.max_conns_per_server && leb l.max_conns_per_server (u.pending + u.live)

-- Before a Service is dialed: nothing at capacity, else the registry with the dial counted.
unfoldable pub dial_start : String → Registry → Option Registry
dial_start key r =
    let u = usage_of key r in
    if is_full r.limits u
    then none
    else some (record r {
      discovered_usage =
          insert string_discrete key (record u { pending = u.pending + 1 }) r.discovered_usage;
    })

-- After the dial, with whether it succeeded.
unfoldable pub dial_end : String → Bool → Registry → Registry
dial_end key ok r =
    let u = usage_of key r in
    put_usage key (record u { pending = u.pending - 1; live = if ok then u.live + 1 else u.live }) r
