-- ===== src/Relay/Registry/Redemption.antt =====
-- A conn_id is a capability for one use.
use ntwire.Base.{
  ℕ, ◌+◌, String, ◌≡◌, ◌≢◌, inl, inr, ite, false, Option, none, some, arith, lookup, lookup-delete,
  lookup-insert, Option-cases, string_discrete,
}
use ntwire.Relay.Registry.{
  Registry, register_agent, deregister_agent, open_start, cancel_pending, redeem, open_delivered,
  release,
}
use ntwire.Relay.Registry.Accounting.{open_start-cases}
use ntwire.Relay.Registry.Agents.{replace_registrations}
use ntwire.Relay.Registry.Steps.{
  Call, registers, deregisters, opens, cancels, redeems, delivers, releases, reloads, step, Reach,
  here, next,
}

-- Which conn_id a call draws.
abbrev pub draws : Call → Option String
draws (opens now name drawn) = drawn
draws _ = none

lookup-cancel_pending :
    (id k : String) (r : Registry)
    → lookup string_discrete k (cancel_pending id r).pending
      ≡ ite (string_discrete id k) none (lookup string_discrete k r.pending)
unfolding cancel_pending
lookup-cancel_pending id k r = elim (Option-cases (lookup string_discrete id r.pending)) [
  | inl e ↦ rw (e, cancel_pending) (ground arith)
  | inr (p, e) ↦
      rw (e, cancel_pending) (ground (arith, lookup-delete string_discrete id k r.pending))
]

-- A redemption ends the capability, whether or not it came in time.
pub redeem_ends :
    (now : ℕ) (id : String) (r : Registry)
    → lookup string_discrete id (redeem now id r).0.pending ≡ none
unfolding redeem
redeem_ends now id r = ground (arith, lookup-cancel_pending id id r)

redeem-lookup :
    (now : ℕ) (id k : String) (r : Registry)
    → lookup string_discrete k r.pending ≡ none
    → lookup string_discrete k (redeem now id r).0.pending ≡ none
unfolding redeem
redeem-lookup now id k r e = ground (arith, lookup-cancel_pending id k r)

open_start-lookup :
    (now : ℕ) (name : String) (drawn : Option String) (k : String) (r : Registry)
    → drawn ≢ some k
    → lookup string_discrete k r.pending ≡ none
    → lookup string_discrete k (open_start now name drawn r).0.pending ≡ none
open_start-lookup now name drawn k r ne e = elim (open_start-cases now name drawn r) [
  | inl same ↦ rw same e
  | inr s ↦ rw s.result (
      ground (
        arith,
        s.drew,
        lookup-insert string_discrete s.conn_id k
            (record { name = name; expires = now + r.limits.dial_back_timeout }) r.pending,
      ))
]

module _ (fingerprint : String → String) (id : String) where
  step-lookup :
      (c : Call) (r : Registry)
      → draws c ≢ some id
      → lookup string_discrete id r.pending ≡ none
      → lookup string_discrete id (step fingerprint c r).pending ≡ none
  unfolding step register_agent deregister_agent open_delivered release replace_registrations
  step-lookup (registers name a) r ne e = ground arith
  step-lookup (deregisters name a) r ne e = ground arith
  step-lookup (opens now name drawn) r ne e = open_start-lookup now name drawn id r ne e
  step-lookup (cancels k) r ne e = ground (arith, lookup-cancel_pending k id r)
  step-lookup (redeems now k) r ne e = redeem-lookup now k id r e
  step-lookup (delivers name) r ne e = ground arith
  step-lookup (releases name) r ne e = ground arith
  step-lookup (reloads regs) r ne e = e

  abbrev pub NeverDrawn : {r s : Registry} → Reach fingerprint r s → Type 0
  NeverDrawn here = Unit
  NeverDrawn (next p c f) = NeverDrawn p × (draws c ≢ some id)

  Reach-lookup :
      {r s : Registry} (p : Reach fingerprint r s)
      → NeverDrawn p
      → lookup string_discrete id r.pending ≡ none
      → lookup string_discrete id s.pending ≡ none
  Reach-lookup here n e = e
  Reach-lookup (next {s = t} p c f) (n, ne) e = step-lookup c t ne (Reach-lookup p n e)

  -- Once redeemed, a conn_id is refused for good: after any calls that do not draw it anew.
  pub redeem_once :
      (now later : ℕ) (r s : Registry) (p : Reach fingerprint (redeem now id r).0 s)
      → NeverDrawn p
      → (redeem later id s).1 ≡ false
  unfolding redeem
  redeem_once now later r s p n = ground (arith, Reach-lookup p n (redeem_ends now id r))
