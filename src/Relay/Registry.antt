-- ===== src/Relay/Registry.antt =====
-- `Registry` of pkg/relay/registry.go: tenants, their control connections and their connection
-- counts, the conn_id capabilities in flight, and the discovered Kubernetes endpoints. Each section
-- under the mutex is one function, so `Open` is several: its start, and what follows once the
-- dial-back arrives or is given up. An *Agent is known by a number, as pointers are compared.
pub mod Kubernetes
pub mod Register
pub mod Accounting
pub mod Steps
pub mod Capacity
pub mod Redemption
pub mod Agents
use ntwire.Base.{
  min, max, ℕ, zero, suc, ◌+◌, ◌-◌, ◌*◌, ◌/◌, ◌%◌, ◌^◌, ◌≤◌, ◌<◌, String, ◌≡◌, refl, sym, ap, subst,
  ◌∙◌, ◌≢◌, ◌↔◌, ◌⊎◌, inl, inr, ite, Bool, true, false, not, ◌&&◌, ◌||◌, Option, none, some, List,
  [], ◌∷◌, ◌++◌, map, arith, dec_lt, dec_le, ℕ_discrete, length, take, drop, length-append,
  take-append-drop, length-take, length-drop, take-length-append, drop-length-append, count,
  count-append, bit, Map, tally, lookup, delete, insert, lookup-delete, lookup-insert, get_or, has,
  IsMap, delete-IsMap, insert-IsMap, delete_absent, tally-delete, length-delete,
  tally-insert_absent, tally-insert_present, bit-has-le, lookup-head, tally-delete-le,
  length-delete-le, length-insert-le, tally-insert-le, tally_all, length-insert_absent, ltb, leb,
  ◌==◌, if◌then◌else◌, Bool-cases, Option-cases, string_discrete, test,
}
use ntwire.Relay.Limits.{Limits}
use ntwire.AuthLimit.Nonces.{NonceCache}

-- A public key is its wire form.
pub record Registration : Type 0 where
  pub name : String
  pub public_key : String
  pub listen : String

pub record Agent : Type 0 where
  pub id : ℕ
  pub name : String
  pub fingerprint : String

pub data Source : Type 0 where
  static outbound kubernetes : Source

pub record ServerEndpoint : Type 0 where
  pub hostname : String
  pub address : String
  pub namespace : String
  pub service : String
  pub tenant : String
  pub source : Source
  pub id : String

pub record TenantState : Type 0 where
  pub agent : Option Agent
  pub pending : ℕ
  pub live : ℕ

abbrev pub no_tenant : TenantState
no_tenant = record { agent = none; pending = 0; live = 0 }

-- The channels of a pending connection are found by its conn_id.
pub record PendingConn : Type 0 where
  pub name : String
  pub expires : ℕ

pub record Registry : Type 0 where
  pub by_fingerprint : Map String Registration
  pub tenants : Map String TenantState
  pub pending : Map String PendingConn
  pub nonces : NonceCache
  pub kubernetes : Map String ServerEndpoint
  pub conflicts : Map String (Map String ServerEndpoint)
  pub limits : Limits
  pub discovered_usage : Map String TenantState

-- r.tenants[name]
abbrev pub tenant_of : String → Registry → Option TenantState
tenant_of name r = lookup string_discrete name r.tenants

abbrev pub set_tenant : String → TenantState → Registry → Registry
set_tenant name t r = record r { tenants = insert string_discrete name t r.tenants }

-- The agent that was replaced, which is then closed, is the second result.
unfoldable pub register_agent : String → Agent → Registry → Registry × Option Agent
register_agent name agent r = elim (tenant_of name r) [
  | none ↦ (set_tenant name (record no_tenant { agent = some agent }) r, none)
  | some t ↦ (set_tenant name (record t { agent = some agent }) r, t.agent)
]

abbrev pub is_agent : Agent → Option Agent → Bool
is_agent a none = false
is_agent a (some b) = a.id == b.id

unfoldable pub deregister_agent : String → Agent → Registry → Registry
deregister_agent name agent r = elim (tenant_of name r) [
  | none ↦ r
  | some t ↦ if is_agent agent t.agent then set_tenant name (record t { agent = none }) r else r
]

pub data OpenError : Type 0 where
  tenant_unknown tenant_at_capacity no_randomness : OpenError

pub data Opened : Type 0 where
  refused : OpenError → Opened
  pushing : String → Agent → Opened

abbrev pub at_capacity : Limits → TenantState → Bool
at_capacity l t =
    leb l.max_pending_per_server t.pending || leb l.max_conns_per_server (t.pending + t.live)

-- `Open` up to the push: the conn_id that `randomConnID` draws is an argument, nothing where the
-- system has no randomness. The result is the conn_id and the agent to push to.
abbrev pub opened : ℕ → String → String → TenantState → Registry → Registry
opened now name conn_id t r = record (set_tenant name (record t { pending = t.pending + 1 }) r) {
  pending =
      insert string_discrete conn_id
        (record { name = name; expires = now + r.limits.dial_back_timeout }) r.pending;
}

open_for : ℕ → String → Option String → Registry → TenantState → Option Agent → Registry × Opened
open_for now name drawn r t none = (r, refused tenant_unknown)
open_for now name none r t (some agent) =
    (r, refused (if at_capacity r.limits t then tenant_at_capacity else no_randomness))
open_for now name (some conn_id) r t (some agent) =
    if at_capacity r.limits t
    then (r, refused tenant_at_capacity)
    else (opened now name conn_id t r, pushing conn_id agent)

open_from : ℕ → String → Option String → Registry → Option TenantState → Registry × Opened
unfolding open_for
open_from now name drawn r none = (r, refused tenant_unknown)
open_from now name drawn r (some t) = open_for now name drawn r t t.agent

unfoldable pub open_start : ℕ → String → Option String → Registry → Registry × Opened
unfolding open_from
open_start now name drawn r = open_from now name drawn r (tenant_of name r)

-- t.pending--, for a conn_id of the tenant
abbrev pub one_less_pending : String → Registry → Registry
one_less_pending name r = elim (tenant_of name r) [
  | none ↦ r
  | some t ↦ set_tenant name (record t { pending = t.pending - 1 }) r
]

-- `cancelPending`: after a failed push, a timeout or a cancelled context
unfoldable pub cancel_pending : String → Registry → Registry
cancel_pending conn_id r = elim (lookup string_discrete conn_id r.pending) [
  | none ↦ r
  | some p ↦
      one_less_pending p.name (record r { pending = delete string_discrete conn_id r.pending })
]

-- `Redeem`: whether the data connection may be delivered
unfoldable pub redeem : ℕ → String → Registry → Registry × Bool
unfolding cancel_pending
redeem now conn_id r = elim (lookup string_discrete conn_id r.pending) [
  | none ↦ (r, false)
  | some p ↦ (cancel_pending conn_id r, not (ltb p.expires now))
]

-- `Open` once the redeemed connection has arrived on its channel
unfoldable pub open_delivered : String → Registry → Registry
open_delivered name r = elim (tenant_of name r) [
  | none ↦ r
  | some t ↦ set_tenant name (record t { live = t.live + 1 }) r
]

abbrev pub less_live : TenantState → TenantState
less_live t = if ltb 0 t.live then record t { live = t.live - 1 } else t

-- an entry of discoveredUsage goes when nothing is counted in it
abbrev pub put_usage : String → TenantState → Registry → Registry
put_usage key u r = record r {
  discovered_usage =
      if u.live + u.pending == 0
      then delete string_discrete key r.discovered_usage
      else insert string_discrete key u r.discovered_usage;
}

unfoldable pub release : String → Registry → Registry
release name r = elim (lookup string_discrete name r.discovered_usage) [
  | some u ↦ put_usage name (less_live u) r
  | none ↦ elim (tenant_of name r) [ none ↦ r | some t ↦ set_tenant name (less_live t) r ]
]
