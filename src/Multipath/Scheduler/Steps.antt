-- ===== src/Multipath/Scheduler/Steps.antt =====
-- The life of a `Scheduler` of pkg/wstransport/multipath.go: any sequence of its methods.
use ntwire.Base.{is_text}
use ntwire.Base.{
  tail-lookup, ℕ, String, ◌≡◌, refl, sym, ap, subst, ◌∙◌, inl, inr, Bool, true, false, not, ◌||◌,
  Option, none, some, List, [], ◌∷◌, arith, Map, lookup, IsMap, lookup-head, ltb, if◌then◌else◌,
  string_discrete,
}
use ntwire.Relay.Udp.Frames.{max_relay_datagram}
use ntwire.Multipath.Transports.{PathKind}
use ntwire.Multipath.Candidate.{Candidate, Loss, probed, failed_carrier}
use ntwire.Multipath.Scheduler.{
  Scheduler, new_scheduler, candidate_of, on_candidate, register, activate_carrier, probe_result,
  carrier_failure, reserve_control_send, finish_control_send, record_duplication,
  report_datagram_mtu, set_forced, values, select, text_of, min_path_mtu_probe,
}
use ntwire.Multipath.Scheduler.{choose, committed, select_from, healthy_ones, sort_paths}
use ntwire.Multipath.Scheduler.Paths.{Has, healthy_ones-Has, sort_paths-Has}
use ntwire.Multipath.Scheduler.Selection.{choose-Has}
use ntwire.Multipath.Scheduler.Sound.{
  IsFit, IsSound, IsSafe-aside, failed_carrier-IsSafe, probed-IsSafe, counted-IsSafe, raised-IsSafe,
  on_candidate-IsSound, register-IsSound, commit-IsSound, activate_carrier-IsSound,
}

Has-candidate :
    (p : Candidate) (m : Map String Candidate)
    → IsMap string_discrete m
    → Has p (values m)
    → (k : String) × (lookup string_discrete k m ≡ some p)
Has-candidate p [] h m = elim m [ ]
Has-candidate p ((k, q) ∷ m) (absent, h) (inl e) =
    (k, lookup-head string_discrete k q m ∙ ap some (sym e))
Has-candidate p ((k, q) ∷ m) (absent, h) (inr n) =
    let (j, e) = Has-candidate p m h n in (j, tail-lookup string_discrete k j q p m absent e)

-- A listed candidate is registered under its name.
pub listed-IsFit :
    (s : Scheduler) (p : Candidate)
    → IsSound s
    → Has p (values s.candidates)
    → (candidate_of p.name s ≡ some p) × IsFit p.name p
listed-IsFit s p sound m =
    let (k, e) = Has-candidate p s.candidates sound.keyed m in
    let f = sound.fit k p e in
    (ap (λ n. candidate_of n s) f.named ∙ e, subst (λ n. IsFit n p) (sym f.named) f)

committed-IsSound :
    (penalty : Loss → ℕ) (s : Scheduler) (c : Candidate)
    → IsSound s
    → Has c (values s.candidates)
    → c.healthy ≡ true
    → IsSound (committed penalty s c)
committed-IsSound penalty s c sound m h = step (is_text c.name (text_of s.primary))
  where
    taken : IsSound (record s { primary = some c.name })
    taken =
        let (e, f) = listed-IsFit s c sound m in commit-IsSound s c.name sound (c, e, f.proven h)

    step : (b : Bool) → IsSound (if b then s else record s { primary = some c.name })
    step true = sound
    step false = taken

select-IsSound : (penalty : Loss → ℕ) (s : Scheduler) → IsSound s → IsSound (select penalty s).0
unfolding select
select-IsSound penalty s sound = step (sort_paths penalty hs) refl (values s.candidates)
  where
    hs : List Candidate
    hs = healthy_ones (values s.candidates)

    step :
        (l : List Candidate)
        → sort_paths penalty hs ≡ l
        → (ps : List Candidate) → IsSound (select_from penalty s l ps).0
    step [] e [] = record {
      keyed = sound.keyed;
      fit = sound.fit;
      incumbent = λ k e. absurd (grind (arith, e));
    }
    step [] e (p ∷ ps) = sound
    step (best ∷ paths) e ps =
        let c = choose penalty s best paths in
        let (listed, well) =
          healthy_ones-Has c (values s.candidates) (
            sort_paths-Has penalty c hs
              (subst (Has c) (sym e) (choose-Has penalty s best paths))) in
        committed-IsSound penalty s c sound listed well

-- One call of a method.
pub data Step (penalty : Loss → ℕ) : Scheduler → Scheduler → Type 0 where
  registers :
      (name : String) (kind : PathKind) (s : Scheduler) → Step penalty s (register name kind s)
  activates :
      (name : String) (now : ℕ) (s : Scheduler) → Step penalty s (activate_carrier name now s)
  probes :
      (name : String) (rtt now : ℕ) (ok : Bool) (s : Scheduler)
      → Step penalty s (probe_result name rtt ok now s)
  fails : (name : String) (s : Scheduler) → Step penalty s (carrier_failure name s)
  reserves : (name : String) (s : Scheduler) → Step penalty s (reserve_control_send name s).0
  finishes : (name : String) (s : Scheduler) → Step penalty s (finish_control_send name s)
  duplicates :
      (name : String) (n : ℕ) (allowed : Bool) (s : Scheduler)
      → Step penalty s (record_duplication name n allowed s)
  measures :
      (name : String) (mtu : ℕ) (s : Scheduler) → Step penalty s (report_datagram_mtu name mtu s)
  forces : (name : String) (s : Scheduler) → Step penalty s (set_forced name s)
  selects : (s : Scheduler) → Step penalty s (select penalty s).0

-- A state that calls lead to, from the new scheduler.
pub data Reach (penalty : Loss → ℕ) : Scheduler → Type 0 where
  start : Reach penalty new_scheduler
  call : (s t : Scheduler) → Reach penalty s → Step penalty s t → Reach penalty t

new_scheduler-IsSound : IsSound new_scheduler
unfolding new_scheduler lookup
new_scheduler-IsSound = record {
  keyed = tt;
  fit = λ k p e. absurd (grind (arith, e));
  incumbent = λ k e. absurd (grind (arith, e));
}

reserve-IsSound :
    (name : String) (s : Scheduler) → IsSound s → IsSound (reserve_control_send name s).0
unfolding reserve_control_send
reserve-IsSound name s sound = step (candidate_of name s)
  where
    next : Scheduler
    next = on_candidate name (λ q. record q { control_sending = true }) s

    well : IsSound next
    well =
        on_candidate-IsSound name (λ q. record q { control_sending = true }) s
          (IsSafe-aside _ (λ p. (refl, refl, refl, refl))) sound

    step :
        (o : Option Candidate)
        → let r : Scheduler × Bool = elim o [
          | none ↦ (s, false)
          | some p ↦ (next, not p.control_sending)
        ] in
          IsSound r.0
    step none = sound
    step (some p) = well

measure-IsSound :
    (name : String) (mtu : ℕ) (s : Scheduler) → IsSound s → IsSound (report_datagram_mtu name mtu s)
unfolding report_datagram_mtu
measure-IsSound name mtu s sound =
    step (ltb mtu min_path_mtu_probe || ltb max_relay_datagram mtu)
      (on_candidate-IsSound name _ s (raised-IsSafe mtu) sound)
  where
    step : (b : Bool) {t : Scheduler} → IsSound t → IsSound (if b then s else t)
    step true well = sound
    step false well = well

Step-IsSound : (penalty : Loss → ℕ) (s t : Scheduler) → Step penalty s t → IsSound s → IsSound t
unfolding probe_result carrier_failure finish_control_send record_duplication set_forced
Step-IsSound penalty _ _ (registers name kind s) sound = register-IsSound name kind s sound
Step-IsSound penalty _ _ (activates name now s) sound = activate_carrier-IsSound name now s sound
Step-IsSound penalty _ _ (probes name rtt now ok s) sound =
    on_candidate-IsSound name (probed rtt ok now) s (probed-IsSafe rtt now ok) sound
Step-IsSound penalty _ _ (fails name s) sound =
    on_candidate-IsSound name failed_carrier s failed_carrier-IsSafe sound
Step-IsSound penalty _ _ (reserves name s) sound = reserve-IsSound name s sound
Step-IsSound penalty _ _ (finishes name s) sound =
    on_candidate-IsSound name _ s (IsSafe-aside _ (λ p. (refl, refl, refl, refl))) sound
Step-IsSound penalty _ _ (duplicates name n allowed s) sound =
    on_candidate-IsSound name _ s (counted-IsSafe n allowed) sound
Step-IsSound penalty _ _ (measures name mtu s) sound = measure-IsSound name mtu s sound
Step-IsSound penalty _ _ (forces name s) sound = record {
  keyed = sound.keyed;
  fit = sound.fit;
  incumbent = sound.incumbent;
}
Step-IsSound penalty _ _ (selects s) sound = select-IsSound penalty s sound

-- After any calls, a healthy path was reached and has missed fewer than three probes since, and the
-- incumbent is a registered path that was reached.
pub scheduler-IsSound : (penalty : Loss → ℕ) (s : Scheduler) → Reach penalty s → IsSound s
scheduler-IsSound penalty _ start = new_scheduler-IsSound
scheduler-IsSound penalty _ (call s t r step) =
    Step-IsSound penalty s t step (scheduler-IsSound penalty s r)
