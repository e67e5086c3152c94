-- ===== src/Multipath/Scheduler/Failover.antt =====
-- What `Select` of pkg/wstransport/multipath.go never takes: a path that was never reached, or one
-- that stopped to answer while another does.
use ntwire.Base.{
  ℕ, String, ◌≡◌, refl, sym, ap, subst, ◌∙◌, ◌≢◌, inl, inr, ite, Bool, true, false, Option, none,
  some, List, [], ◌∷◌, arith, Map, lookup, insert, lookup-insert, if◌then◌else◌, string_discrete,
}
use ntwire.Base.{is_text}
use ntwire.Multipath.Candidate.{Candidate, Loss, probed, note_probe, miss}
use ntwire.Multipath.Scheduler.{
  Scheduler, Selected, candidate_of, on_candidate, probe_result, values, select, text_of, find_name,
  proven_name, select_degraded, select_from, alone, nothing_selected, healthy_ones, sort_paths,
}
use ntwire.Multipath.Scheduler.Paths.{Has, find_name-Found, Found, healthy_ones-Has, sort_paths-Has}
use ntwire.Multipath.Scheduler.Selection.{Selects, select-Selects}
use ntwire.Multipath.Scheduler.Sound.{IsSound, IsProven, candidate_of-on_candidate}
use ntwire.Multipath.Scheduler.Steps.{Reach, scheduler-IsSound, listed-IsFit, probes, call}

-- A name to send by: none, or that of a registered path that was reached.
pub data IsReachable (s : Scheduler) (name : String) : Type 0 where
  nowhere : name ≡ "" → IsReachable s name
  somewhere : (p : Candidate) → candidate_of name s ≡ some p → IsProven p → IsReachable s name

proven_name-Has :
    (name : String) (ps : List Candidate) (p : Candidate)
    → proven_name name ps ≡ some p
    → Has p ps × IsProven p
unfolding proven_name
proven_name-Has name [] p e = absurd (grind (arith, e))
proven_name-Has name (q ∷ qs) p e =
    step (is_text q.name name) q.last_success refl
      (λ r. let (m, h) = proven_name-Has name qs p r in (inr m, h)) e
  where
    step :
        (b : Bool) (o : Option ℕ)
        → q.last_success ≡ o
        → (proven_name name qs ≡ some p → Has p (q ∷ qs) × IsProven p)
        → (if b
            then elim o [ none ↦ proven_name name qs | some t ↦ some q ]
            else proven_name name qs)
          ≡ some p
        → Has p (q ∷ qs) × IsProven p
    step false o l rest r = rest r
    step true none l rest r = rest r
    step true (some t) l rest r =
        let same : q ≡ p = grind (arith, r) in (inl (sym same), subst IsProven same (t, l))

reachable :
    (s : Scheduler) (p : Candidate)
    → IsSound s
    → Has p (values s.candidates)
    → IsProven p
    → IsReachable s p.name
reachable s p sound m h = somewhere p (listed-IsFit s p sound m).0 h

abbrev escape : Scheduler → Selected
escape s =
    if is_text (text_of s.forced) ""
    then nothing_selected
    else elim (proven_name (text_of s.forced) (values s.candidates)) [
      | none ↦ nothing_selected
      | some p ↦ alone p.name
    ]

escape-IsReachable : (s : Scheduler) → IsSound s → IsReachable s (escape s).primary
escape-IsReachable s sound =
    step (is_text (text_of s.forced) "") (proven_name (text_of s.forced) (values s.candidates)) refl
  where
    step :
        (b : Bool) (o : Option Candidate)
        → proven_name (text_of s.forced) (values s.candidates) ≡ o
        → let r : Selected =
            if b
            then nothing_selected
            else elim o [ none ↦ nothing_selected | some p ↦ alone p.name ] in
          IsReachable s r.primary
    step true o e = nowhere refl
    step false none e = nowhere refl
    step false (some p) e =
        let (m, h) = proven_name-Has (text_of s.forced) (values s.candidates) p e in
        reachable s p sound m h

degraded-IsReachable :
    (s : Scheduler) → IsSound s → IsReachable s (select_degraded s (values s.candidates)).primary
unfolding select_degraded
degraded-IsReachable s sound = first s.primary refl
  where
    second :
        (cur : String) (o : Option Candidate)
        → s.primary ≡ some cur
        → Found cur (values s.candidates) o
        → let r : Selected = elim o [ none ↦ escape s | some p ↦ alone p.name ] in
          IsReachable s r.primary
    second cur none e f = escape-IsReachable s sound
    second cur (some p) e (m, n) =
        let (q, found, proven) = sound.incumbent cur e in
        subst (IsReachable s) (sym n) (somewhere q found proven)

    first :
        (o : Option String)
        → s.primary ≡ o
        → let r : Selected = elim o [
          | none ↦ escape s
          | some cur ↦ elim (find_name cur (values s.candidates)) [
            | none ↦ escape s
            | some p ↦ alone p.name
          ]
        ] in
          IsReachable s r.primary
    first none e = escape-IsReachable s sound
    first (some cur) e =
        second cur (find_name cur (values s.candidates)) e
          (find_name-Found cur (values s.candidates))

module _ (penalty : Loss → ℕ) (s : Scheduler) where
  selected-IsReachable :
      IsSound s
      → Selects penalty s (select penalty s) (values s.candidates)
      → IsReachable s (select penalty s).1.primary
  selected-IsReachable sound r =
      let (e, fit) = listed-IsFit s r.chosen sound r.listed in
      subst (IsReachable s) (sym r.selected) (somewhere r.chosen e (fit.proven r.chosen_healthy))

  -- After any calls, `Select` names no path or a registered path that was reached: nothing is sent on a
  -- newly registered path before it proves its reachability.
  pub select-IsReachable : Reach penalty s → IsReachable s (select penalty s).1.primary
  unfolding select
  select-IsReachable reach = step (sort_paths penalty hs) refl (values s.candidates) refl
    where
      sound : IsSound s
      sound = scheduler-IsSound penalty s reach

      hs : List Candidate
      hs = healthy_ones (values s.candidates)

      step :
          (l : List Candidate)
          → sort_paths penalty hs ≡ l
          → (ps : List Candidate) → values s.candidates ≡ ps
          → IsReachable s (select_from penalty s l ps).1.primary
      step [] e [] v = nowhere refl
      step [] e (p ∷ ps) v =
          subst (λ qs. IsReachable s (select_degraded s qs).primary) v
            (degraded-IsReachable s sound)
      step (best ∷ paths) e ps v =
          let (listed, well) =
            healthy_ones-Has best (values s.candidates)
              (sort_paths-Has penalty best hs (subst (Has best) (sym e) (inl refl))) in
          subst (λ l. IsReachable s (select_from penalty s l ps).1.primary) e
            (subst
              (λ qs. IsReachable s (select_from penalty s (sort_paths penalty hs) qs).1.primary) v
              (selected-IsReachable sound (select-Selects penalty s best listed well)))

-- A selected name is that of a registered healthy path that is another than the given one.
pub record IsTaken (s : Scheduler) (other_than selected : String) : Type 0 where
  pub path : Candidate
  pub registered : candidate_of selected s ≡ some path
  pub healthy : path.healthy ≡ true
  pub other : selected ≢ other_than

-- Three probes of a path in a row are not answered.
abbrev pub missed_thrice : String → ℕ → Scheduler → Scheduler
missed_thrice name now s =
    probe_result name 0 false now (probe_result name 0 false now (probe_result name 0 false now s))

misses_thrice-healthy :
    (now : ℕ) (c : Candidate)
    → (probed 0 false now (probed 0 false now (probed 0 false now c))).healthy ≡ false
unfolding probed miss note_probe
misses_thrice-healthy now c = ground arith

lookup-Has :
    (k : String) (p : Candidate) (m : Map String Candidate)
    → lookup string_discrete k m ≡ some p
    → Has p (values m)
unfolding lookup
lookup-Has k p [] e = absurd (grind (arith, e))
lookup-Has k p ((j, q) ∷ m) e = step (string_discrete j k) e (lookup-Has k p m)
  where
    step :
        (d : Dec (j ≡ k))
        → ite d (some q) (lookup string_discrete k m) ≡ some p
        → (lookup string_discrete k m ≡ some p → Has p (values m))
        → Has p (values ((j, q) ∷ m))
    step (yes n) e ih = let same : q ≡ p = grind (arith, e) in inl (sym same)
    step (no n) e ih = inr (ih e)

-- A change of one candidate leaves the others.
candidate_of-on_candidate_other :
    (k name : String) (f : Candidate → Candidate) (s : Scheduler)
    → k ≢ name
    → candidate_of k (on_candidate name f s) ≡ candidate_of k s
unfolding on_candidate
candidate_of-on_candidate_other k name f s ne = step (candidate_of name s)
  where
    step :
        (o : Option Candidate)
        → candidate_of k (elim o [
          | none ↦ s
          | some p ↦ record s { candidates = insert string_discrete name (f p) s.candidates }
        ])
          ≡ candidate_of k s
    step none = refl
    step (some p) = ground (arith, lookup-insert string_discrete name k (f p) s.candidates)

module _ (penalty : Loss → ℕ) where
  -- After any calls, if three probes in a row of a registered path are not answered while another
  -- registered path is healthy, `Select` takes a registered healthy path that is another.
  pub fail_over :
      (s : Scheduler) (name k : String) (c p : Candidate) (now : ℕ)
      → Reach penalty s
      → candidate_of name s ≡ some c
      → candidate_of k s ≡ some p
      → p.healthy ≡ true
      → k ≢ name
      → IsTaken
          (missed_thrice name now s)
          name
          (select penalty (missed_thrice name now s)).1.primary
  unfolding probe_result
  fail_over s name k c p now reach here there well ne = record {
    path = r.chosen;
    registered = subst (λ n. candidate_of n s3 ≡ some r.chosen) (sym r.selected) found;
    healthy = r.chosen_healthy;
    other = λ e.
        let at_name = subst (λ n. candidate_of n s3 ≡ some r.chosen) (sym r.selected ∙ e) found in
        let same : r.chosen ≡ f (f (f c)) = grind (arith, at_name, missed) in
        let ill : r.chosen.healthy ≡ false =
          ap (λ (q : Candidate). q.healthy) same ∙ misses_thrice-healthy now c in
        absurd (grind (arith, ill, r.chosen_healthy));
  }
    where
      f : Candidate → Candidate
      f = probed 0 false now

      s3 : Scheduler
      s3 = missed_thrice name now s

      reach3 : Reach penalty s3
      reach3 =
          let once = call s _ reach (probes name 0 now false s) in
          let twice = call _ _ once (probes name 0 now false _) in
          call _ _ twice (probes name 0 now false _)

      still : candidate_of k s3 ≡ some p
      still =
          candidate_of-on_candidate_other k name f _ ne
          ∙ candidate_of-on_candidate_other k name f _ ne
          ∙ candidate_of-on_candidate_other k name f s ne
          ∙ there

      missed : candidate_of name s3 ≡ some (f (f (f c)))
      missed =
          candidate_of-on_candidate name f (f (f c)) _
            (candidate_of-on_candidate name f (f c) _ (candidate_of-on_candidate name f c s here))

      r : Selects penalty s3 (select penalty s3) (values s3.candidates)
      r = select-Selects penalty s3 p (lookup-Has k p s3.candidates still) well

      found : candidate_of r.chosen.name s3 ≡ some r.chosen
      found = (listed-IsFit s3 r.chosen (scheduler-IsSound penalty s3 reach3) r.listed).0
