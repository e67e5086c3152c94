-- ===== src/Relay/Registry/Capacity.antt =====
-- The caps on a tenant's connections, and what the gap between `Redeem` and the count of the
-- delivered connection does to them.
use ntwire.Base.{
  ℕ, suc, ◌+◌, ◌-◌, ◌≤◌, String, ◌≡◌, refl, ◌∙◌, inl, inr, ite, false, not, Option, none, some,
  arith, bit, lookup, lookup-insert, ltb, Option-cases, string_discrete, test,
}
use ntwire.Relay.Registry.{
  open_from, open_for, Agent, TenantState, PendingConn, Registry, tenant_of, set_tenant,
  at_capacity, opened, open_start, one_less_pending, cancel_pending, redeem, open_delivered,
  release, less_live,
}
use ntwire.Relay.Registry.Accounting.{
  IsAccounted, open_start-cases, pending_of, pending_of-set_tenant, pending_positive,
}

abbrev pub live_of : String → Registry → ℕ
live_of n r = elim (tenant_of n r) [ none ↦ 0 | some t ↦ t.live ]

abbrev pub conns_of : String → Registry → ℕ
conns_of n r = pending_of n r + live_of n r

live_of-set_tenant :
    (name n : String) (t : TenantState) (r : Registry)
    → live_of n (set_tenant name t r) ≡ ite (string_discrete name n) t.live (live_of n r)
live_of-set_tenant name n t r = ground (arith, lookup-insert string_discrete name n t r.tenants)

-- Every tenant is within the cap on its connections, pending and live.
abbrev pub IsCapped : Registry → Type 0
IsCapped r = (n : String) → conns_of n r ≤ r.limits.max_conns_per_server

module _ (name : String) (r : Registry) where
  conns_of-opened :
      (now : ℕ) (id : String) (t : TenantState)
      → tenant_of name r ≡ some t
      → (n : String)
      → conns_of n (opened now name id t r) ≡ conns_of n r + bit (test (string_discrete name n))
  conns_of-opened now id t e n = ground (
    arith,
    pending_of-set_tenant name n (record t { pending = t.pending + 1 }) r,
    live_of-set_tenant name n (record t { pending = t.pending + 1 }) r,
  )

  pub open_start-IsCapped :
      (now : ℕ) (drawn : Option String) → IsCapped r → IsCapped (open_start now name drawn r).0
  open_start-IsCapped now drawn h = elim (open_start-cases now name drawn r) [
    | inl same ↦ rw same h
    | inr s ↦ rw s.result (λ n.
        ground (arith, conns_of-opened now s.conn_id s.tenant s.found n, h n, s.room, s.found))
  ]

  -- The count of one redeemed connection, delivered.
  conns_of-delivered :
      (n : String)
      → conns_of n (open_delivered name r) ≤ conns_of n r + bit (test (string_discrete name n))
  unfolding open_delivered
  conns_of-delivered n = elim (Option-cases (tenant_of name r)) [
    | inl e ↦ rw (e, open_delivered) (omega arith)
    | inr (t, e) ↦
        rw (e, open_delivered)
          (ground (
            arith,
            pending_of-set_tenant name n (record t { live = t.live + 1 }) r,
            live_of-set_tenant name n (record t { live = t.live + 1 }) r,
          ))
  ]

  conns_of-release-le : (n : String) → conns_of n (release name r) ≤ conns_of n r
  unfolding release
  conns_of-release-le n = elim (Option-cases (lookup string_discrete name r.discovered_usage)) [
    | inr (u, d) ↦ rw (d, release) (omega arith)
    | inl d ↦ elim (Option-cases (tenant_of name r)) [
      | inl e ↦ rw (d, e, release) (omega arith)
      | inr (t, e) ↦
          rw (d, e, release)
            (ground (
              arith,
              pending_of-set_tenant name n (less_live t) r,
              live_of-set_tenant name n (less_live t) r,
            ))
    ]
  ]

limits-delivered : (name : String) (r : Registry) → (open_delivered name r).limits ≡ r.limits
unfolding open_delivered
limits-delivered name r = ground arith

-- Taking a conn_id out of flight frees one slot of its tenant.
module _ (id : String) (p : PendingConn) (r : Registry) (v : IsAccounted r)
    (e : lookup string_discrete id r.pending ≡ some p) where
  conns_of-cancel_pending :
      (n : String)
      → conns_of n (cancel_pending id r) + bit (test (string_discrete p.name n)) ≡ conns_of n r
  unfolding cancel_pending
  conns_of-cancel_pending n = elim (Option-cases (tenant_of p.name r)) [
    | inl f ↦ absurd (ground (arith, pending_positive id p r e v))
    | inr (t, f) ↦
        rw (e, f, cancel_pending, one_less_pending)
          (ground (
            arith,
            pending_positive id p r e v,
            pending_of-set_tenant p.name n (record t { pending = t.pending - 1 }) r,
            live_of-set_tenant p.name n (record t { pending = t.pending - 1 }) r,
          ))
  ]

  limits-cancel_pending : (cancel_pending id r).limits ≡ r.limits
  unfolding cancel_pending
  limits-cancel_pending = elim (Option-cases (tenant_of p.name r)) [
    | inl f ↦ rw (e, f, cancel_pending, one_less_pending) refl
    | inr (t, f) ↦ rw (e, f, cancel_pending, one_less_pending) refl
  ]

  redeem_known : (now : ℕ) → redeem now id r ≡ (cancel_pending id r, not (ltb p.expires now))
  unfolding redeem
  redeem_known now = rw (e, redeem) refl

  -- A redemption whose connection is counted at once keeps every tenant within its cap.
  pub delivered_at_once-IsCapped :
      (now : ℕ) → IsCapped r → IsCapped (open_delivered p.name (redeem now id r).0)
  delivered_at_once-IsCapped now h = rw (redeem_known now) (λ n.
      rw (limits-delivered p.name (cancel_pending id r) ∙ limits-cancel_pending) (
        omega (
          arith,
          conns_of-delivered p.name (cancel_pending id r) n,
          conns_of-cancel_pending n,
          h n,
        )))

  tenant-cancel_pending :
      (t : TenantState)
      → tenant_of p.name r ≡ some t
      → tenant_of p.name (cancel_pending id r) ≡ some (record t { pending = t.pending - 1 })
  unfolding cancel_pending
  tenant-cancel_pending t f =
      rw (e, f, cancel_pending, one_less_pending)
        (ground (
          arith,
          lookup-insert string_discrete p.name p.name (record t { pending = t.pending - 1 })
              r.tenants,
        ))

open_start_room :
    (now : ℕ) (name id : String) (r : Registry) (t : TenantState) (a : Agent)
    → tenant_of name r ≡ some t
    → t.agent ≡ some a
    → at_capacity r.limits t ≡ false
    → (open_start now name (some id) r).0 ≡ opened now name id t r
unfolding open_start open_from open_for
open_start_room now name id r t a e f room = ground arith

conns_of-delivered_eq :
    (name : String) (r : Registry) (t : TenantState)
    → tenant_of name r ≡ some t
    → conns_of name (open_delivered name r) ≡ suc (conns_of name r)
unfolding open_delivered
conns_of-delivered_eq name r t e =
    rw (e, open_delivered)
      (ground (
        arith,
        pending_of-set_tenant name name (record t { live = t.live + 1 }) r,
        live_of-set_tenant name name (record t { live = t.live + 1 }) r,
      ))

-- Between `Redeem` and the count of the delivered connection a tenant at its cap may open one more:
-- once both are counted it is one over. The tenant is connected, at its cap, and has a conn_id in
-- flight that is redeemed before the other `Open`.
pub cap_exceeded :
    (now later : ℕ) (id id' : String) (p : PendingConn) (t : TenantState) (a : Agent) (r : Registry)
    → IsAccounted r
    → lookup string_discrete id r.pending ≡ some p
    → tenant_of p.name r ≡ some t
    → t.agent ≡ some a
    → t.pending ≤ r.limits.max_pending_per_server
    → conns_of p.name r ≡ r.limits.max_conns_per_server
    → conns_of p.name
        (open_delivered p.name (open_start later p.name (some id') (redeem now id r).0).0)
      ≡ suc r.limits.max_conns_per_server
cap_exceeded now later id id' p t a r v e f connected few full =
    let s = cancel_pending id r in
    let t' : TenantState = record t { pending = t.pending - 1 } in
    let positive = pending_positive id p r e v in
    let found : tenant_of p.name s ≡ some t' = tenant-cancel_pending id p r v e t f in
    let limits = limits-cancel_pending id p r v e in
    let started : (open_start later p.name (some id') s).0 ≡ opened later p.name id' t' s =
      open_start_room later p.name id' s t' a found connected (rw limits (ground arith)) in
    rw (redeem_known id p r v e now) (
      rw started (
        conns_of-delivered_eq p.name (opened later p.name id' t' s)
          (record t' { pending = t'.pending + 1 })
          (ground (
            arith,
            lookup-insert string_discrete p.name p.name (record t' { pending = t'.pending + 1 })
                s.tenants,
          ))
        ∙ ground (
          arith,
          conns_of-opened p.name s later id' t' found p.name,
          conns_of-cancel_pending id p r v e p.name,
        )))
