-- ===== src/Relay/Registry/Steps.antt =====
-- The registry's critical sections in any order, as the goroutines of the relay run them.
use ntwire.Base.{ℕ, String, ◌≡◌, Option, none, some, List, lookup, string_discrete}
use ntwire.Relay.Registry.{
  Registration, Agent, Registry, register_agent, deregister_agent, open_start, cancel_pending,
  redeem, open_delivered, release,
}
use ntwire.Relay.Registry.Agents.{replace_registrations}
use ntwire.Relay.Registry.Accounting.{
  IsAccounted, register_agent-IsAccounted, deregister_agent-IsAccounted, open_start-IsAccounted,
  cancel_pending-IsAccounted, redeem-IsAccounted, open_delivered-IsAccounted, release-IsAccounted,
  replace_registrations-IsAccounted,
}

pub data Call : Type 0 where
  registers deregisters : String → Agent → Call
  opens : ℕ → String → Option String → Call
  cancels : String → Call
  redeems : ℕ → String → Call
  delivers releases : String → Call
  reloads : List Registration → Call

module _ (fingerprint : String → String) where
  unfoldable pub step : Call → Registry → Registry
  step (registers name a) r = (register_agent name a r).0
  step (deregisters name a) r = deregister_agent name a r
  step (opens now name drawn) r = (open_start now name drawn r).0
  step (cancels id) r = cancel_pending id r
  step (redeems now id) r = (redeem now id r).0
  step (delivers name) r = open_delivered name r
  step (releases name) r = release name r
  step (reloads regs) r = (replace_registrations fingerprint regs r).0

  -- `randomConnID` draws no conn_id that is in flight.
  abbrev pub IsFresh : Call → Registry → Type 0
  IsFresh (opens now name drawn) r =
      (id : String) → drawn ≡ some id → lookup string_discrete id r.pending ≡ none
  IsFresh _ r = Unit

  pub data Reach (r : Registry) : Registry → Type 0 where
    here : Reach r r
    next : {s : Registry} → Reach r s → (c : Call) → IsFresh c s → Reach r (step c s)

  step-IsAccounted :
      (c : Call) (r : Registry) → IsFresh c r → IsAccounted r → IsAccounted (step c r)
  unfolding step
  step-IsAccounted (registers name a) r f v = register_agent-IsAccounted name r v a
  step-IsAccounted (deregisters name a) r f v = deregister_agent-IsAccounted name r v a
  step-IsAccounted (opens now name drawn) r f v = open_start-IsAccounted now name drawn r f v
  step-IsAccounted (cancels id) r f v = cancel_pending-IsAccounted id r v
  step-IsAccounted (redeems now id) r f v = redeem-IsAccounted now id r v
  step-IsAccounted (delivers name) r f v = open_delivered-IsAccounted name r v
  step-IsAccounted (releases name) r f v = release-IsAccounted name r v
  step-IsAccounted (reloads regs) r f v = replace_registrations-IsAccounted fingerprint regs r v

  -- From an accounted registry, under any interleaving of registrations, opens, cancellations, redemptions, deliveries,
  -- releases and reloads, each tenant's pending count stays the number of its conn_ids in flight.
  pub Reach-IsAccounted : (r s : Registry) → IsAccounted r → Reach r s → IsAccounted s
  Reach-IsAccounted r s v here = v
  Reach-IsAccounted r s v (next {s = t} p c f) = step-IsAccounted c t f (Reach-IsAccounted r t v p)
