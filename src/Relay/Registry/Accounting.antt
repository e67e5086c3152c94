-- ===== src/Relay/Registry/Accounting.antt =====
-- The pending count of a tenant is the number of its conn_ids in flight, under any interleaving of
-- the registry's critical sections.
use ntwire.Base.{
  ℕ, ◌+◌, ◌-◌, ◌≤◌, String, ◌≡◌, refl, sym, ◌∙◌, ◌⊎◌, inl, inr, ite, Bool, false, Option, none,
  some, List, [], arith, bit, tally, lookup, delete, lookup-insert, IsMap, delete-IsMap,
  insert-IsMap, tally-delete, tally-insert_absent, Bool-cases, Option-cases, string_discrete, test,
}
use ntwire.Relay.Registry.{
  opened, open_for, is_agent, Registration, Agent, TenantState, PendingConn, Registry, tenant_of,
  set_tenant, register_agent, deregister_agent, pushing, at_capacity, open_from, open_start,
  one_less_pending, cancel_pending, redeem, open_delivered, release,
}
use ntwire.Relay.Registry.Agents.{replace_registrations, lookup-evict, index_names}

abbrev pub pending_of : String → Registry → ℕ
pending_of n r = elim (tenant_of n r) [ none ↦ 0 | some t ↦ t.pending ]

abbrev pub is_for : String → PendingConn → Bool
is_for n p = test (string_discrete p.name n)

pub record IsAccounted (r : Registry) : Type 0 where
  pub ids : IsMap string_discrete r.pending
  pub exact : (n : String) → pending_of n r ≡ tally (is_for n) r.pending

-- A change that leaves the conn_ids and the pending counts alone.
IsAccounted-same :
    (r s : Registry)
    → s.pending ≡ r.pending
    → ((n : String) → pending_of n s ≡ pending_of n r)
    → IsAccounted r
    → IsAccounted s
IsAccounted-same r s same counts v = record {
  ids = rw same v.ids;
  exact = λ n. rw same (counts n ∙ v.exact n);
}

pub pending_of-set_tenant :
    (name n : String) (t : TenantState) (r : Registry)
    → pending_of n (set_tenant name t r) ≡ ite (string_discrete name n) t.pending (pending_of n r)
pending_of-set_tenant name n t r = ground (arith, lookup-insert string_discrete name n t r.tenants)

-- Storing a tenant with the pending count that it had.
set_tenant-IsAccounted :
    (name : String) (t : TenantState) (r : Registry)
    → t.pending ≡ pending_of name r
    → IsAccounted r
    → IsAccounted (set_tenant name t r)
set_tenant-IsAccounted name t r e v =
    IsAccounted-same r _ refl (λ n. ground (arith, pending_of-set_tenant name n t r)) v

module _ (name : String) (r : Registry) (v : IsAccounted r) where
  pub register_agent-IsAccounted : (a : Agent) → IsAccounted (register_agent name a r).0
  unfolding register_agent
  register_agent-IsAccounted a = elim (Option-cases (tenant_of name r)) [
    | inl e ↦ rw (e, register_agent) (set_tenant-IsAccounted name _ r (ground arith) v)
    | inr (t, e) ↦ rw (e, register_agent) (set_tenant-IsAccounted name _ r (ground arith) v)
  ]

  pub deregister_agent-IsAccounted : (a : Agent) → IsAccounted (deregister_agent name a r)
  unfolding deregister_agent
  deregister_agent-IsAccounted a = elim (Option-cases (tenant_of name r)) [
    | inl e ↦ rw (e, deregister_agent) v
    | inr (t, e) ↦
        rw (e, deregister_agent)
          (elim (Bool-cases (is_agent a t.agent)) [
            | inl same ↦ rw same (set_tenant-IsAccounted name _ r (ground arith) v)
            | inr other ↦ rw other v
          ])
  ]

  pub open_delivered-IsAccounted : IsAccounted (open_delivered name r)
  unfolding open_delivered
  open_delivered-IsAccounted = elim (Option-cases (tenant_of name r)) [
    | inl e ↦ rw (e, open_delivered) v
    | inr (t, e) ↦ rw (e, open_delivered) (set_tenant-IsAccounted name _ r (ground arith) v)
  ]

  pub release-IsAccounted : IsAccounted (release name r)
  unfolding release
  release-IsAccounted = elim (Option-cases (lookup string_discrete name r.discovered_usage)) [
    | inr (u, d) ↦ rw (d, release) (IsAccounted-same r _ refl (λ n. refl) v)
    | inl d ↦ elim (Option-cases (tenant_of name r)) [
      | inl e ↦ rw (d, e, release) v
      | inr (t, e) ↦ rw (d, e, release) (set_tenant-IsAccounted name _ r (ground arith) v)
    ]
  ]

-- What an `Open` that goes on to push has found and done.
pub record Started (now : ℕ) (name : String) (drawn : Option String) (r : Registry) : Type 0 where
  pub tenant : TenantState
  pub agent : Agent
  pub conn_id : String
  pub found : tenant_of name r ≡ some tenant
  pub connected : tenant.agent ≡ some agent
  pub room : at_capacity r.limits tenant ≡ false
  pub drew : drawn ≡ some conn_id
  pub result :
      open_start now name drawn r ≡ (opened now name conn_id tenant r, pushing conn_id agent)

open_for-cases :
    (now : ℕ) (name : String) (drawn : Option String) (r : Registry) (t : TenantState)
    (o : Option Agent)
    → tenant_of name r ≡ some t
    → t.agent ≡ o
    → ((open_start now name drawn r).0 ≡ r) ⊎ Started now name drawn r
unfolding open_start open_from open_for
open_for-cases now name drawn r t none e f = inl (ground arith)
open_for-cases now name none r t (some a) e f = inl (ground arith)
open_for-cases now name (some id) r t (some a) e f = elim (Bool-cases (at_capacity r.limits t)) [
  | inl full ↦ inl (ground arith)
  | inr room ↦ inr (record {
    tenant = t;
    agent = a;
    conn_id = id;
    found = e;
    connected = f;
    room = room;
    drew = refl;
    result = ground arith;
  })
]

-- `Open` either goes on to push, or leaves the registry as it was.
pub open_start-cases :
    (now : ℕ) (name : String) (drawn : Option String) (r : Registry)
    → ((open_start now name drawn r).0 ≡ r) ⊎ Started now name drawn r
unfolding open_start open_from
open_start-cases now name drawn r = elim (Option-cases (tenant_of name r)) [
  | inl e ↦ inl (ground arith)
  | inr (t, e) ↦ open_for-cases now name drawn r t t.agent e refl
]

opened-IsAccounted :
    (now : ℕ) (name id : String) (t : TenantState) (r : Registry)
    → tenant_of name r ≡ some t
    → lookup string_discrete id r.pending ≡ none
    → IsAccounted r
    → IsAccounted (opened now name id t r)
opened-IsAccounted now name id t r e fresh v = record {
  ids =
      insert-IsMap string_discrete id
        (record { name = name; expires = now + r.limits.dial_back_timeout }) r.pending v.ids;
  exact = λ n. ground (
    arith,
    v.exact n,
    pending_of-set_tenant name n (record t { pending = t.pending + 1 }) r,
    tally-insert_absent string_discrete (is_for n) id
        (record { name = name; expires = now + r.limits.dial_back_timeout }) r.pending fresh,
  );
}

pub open_start-IsAccounted :
    (now : ℕ) (name : String) (drawn : Option String) (r : Registry)
    → ((id : String) → drawn ≡ some id → lookup string_discrete id r.pending ≡ none)
    → IsAccounted r
    → IsAccounted (open_start now name drawn r).0
open_start-IsAccounted now name drawn r fresh v = elim (open_start-cases now name drawn r) [
  | inl same ↦ rw same v
  | inr s ↦
      rw s.result
        (opened-IsAccounted now name s.conn_id s.tenant r s.found (fresh s.conn_id s.drew) v)
]

-- Taking a conn_id out of flight.
module _ (id : String) (p : PendingConn) (r : Registry)
    (e : lookup string_discrete id r.pending ≡ some p) (v : IsAccounted r) where
  abbrev taken : Registry
  taken = record r { pending = delete string_discrete id r.pending }

  taken-tally : (n : String) → bit (is_for n p) + tally (is_for n) taken.pending ≡ pending_of n r
  taken-tally n = tally-delete string_discrete (is_for n) id p r.pending v.ids e ∙ sym (v.exact n)

  -- The count that goes down by one is not 0.
  pub pending_positive : 1 ≤ pending_of p.name r
  pending_positive = ground (arith, taken-tally p.name)

  one_less_pending-IsAccounted : IsAccounted (one_less_pending p.name taken)
  one_less_pending-IsAccounted = elim (Option-cases (tenant_of p.name r)) [
    | inl f ↦ absurd (ground (arith, pending_positive))
    | inr (t, f) ↦
        rw (f, one_less_pending)
          (record {
            ids = delete-IsMap string_discrete id r.pending v.ids;
            exact = λ n. ground (
              arith,
              taken-tally n,
              pending_of-set_tenant p.name n (record t { pending = t.pending - 1 }) taken,
            );
          })
  ]

pub cancel_pending-IsAccounted :
    (id : String) (r : Registry) → IsAccounted r → IsAccounted (cancel_pending id r)
unfolding cancel_pending
cancel_pending-IsAccounted id r v = elim (Option-cases (lookup string_discrete id r.pending)) [
  | inl e ↦ rw (e, cancel_pending) v
  | inr (p, e) ↦ rw (e, cancel_pending) (one_less_pending-IsAccounted id p r e v)
]

pub redeem-IsAccounted :
    (now : ℕ) (id : String) (r : Registry) → IsAccounted r → IsAccounted (redeem now id r).0
unfolding redeem
redeem-IsAccounted now id r v = elim (Option-cases (lookup string_discrete id r.pending)) [
  | inl e ↦ rw (e, redeem) v
  | inr (p, e) ↦ rw (e, redeem) (cancel_pending-IsAccounted id r v)
]

pub replace_registrations-IsAccounted :
    (fingerprint : String → String) (regs : List Registration) (r : Registry)
    → IsAccounted r
    → IsAccounted (replace_registrations fingerprint regs r).0
unfolding replace_registrations
replace_registrations-IsAccounted fingerprint regs r v =
    IsAccounted-same r _ refl
      (λ n. ground (arith, lookup-evict fingerprint (index_names fingerprint regs []) n r.tenants))
      v
