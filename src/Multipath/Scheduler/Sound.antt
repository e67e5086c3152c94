-- ===== src/Multipath/Scheduler/Sound.antt =====
-- The invariant of a `Scheduler` of pkg/wstransport/multipath.go, and the changes of a candidate that
-- keep it.
use ntwire.Base.{
  ℕ, ◌+◌, ◌%◌, ◌^◌, ◌<◌, String, ◌≡◌, refl, sym, subst, ◌∙◌, inl, inr, Bool, true, false, Option,
  none, some, arith, lookup, delete, insert, lookup-insert, IsMap, insert-IsMap, lookup-head,
  lookup-insert_cases, ltb, if◌then◌else◌, string_discrete,
}
use ntwire.Multipath.Transports.{PathKind}
use ntwire.Multipath.Candidate.{
  Candidate, new_candidate, probed, failed_carrier, activated, note_probe, miss, answer, with_loss,
}
use ntwire.Multipath.Scheduler.{
  Scheduler, candidate_of, on_candidate, register, or_first, activate_carrier,
}

-- A path that was reached before.
abbrev pub IsProven : Candidate → Type 0
IsProven p = (t : ℕ) × (p.last_success ≡ some t)

-- A candidate stands under its name, and it is healthy only if it was reached and has not missed three
-- probes since.
pub record IsFit (k : String) (p : Candidate) : Type 0 where
  pub named : p.name ≡ k
  pub proven : p.healthy ≡ true → IsProven p
  pub answering : p.healthy ≡ true → p.misses < 3

-- The incumbent is a registered path that was reached before.
pub record IsSound (s : Scheduler) : Type 0 where
  pub keyed : IsMap string_discrete s.candidates
  pub fit : (k : String) (p : Candidate) → candidate_of k s ≡ some p → IsFit k p
  pub incumbent :
      (k : String) → s.primary ≡ some k → (p : Candidate) × (candidate_of k s ≡ some p) × IsProven p

-- A change of a candidate that keeps it sound.
pub record IsSafe (f : Candidate → Candidate) : Type 0 where
  pub keeps_fit : (k : String) (p : Candidate) → IsFit k p → IsFit k (f p)
  pub keeps_proven : (p : Candidate) → IsProven p → IsProven (f p)

-- A change that leaves the name and the health.
pub IsSafe-aside :
    (f : Candidate → Candidate)
    → ((p : Candidate)
        → ((f p).name ≡ p.name)
          × ((f p).healthy ≡ p.healthy)
          × ((f p).misses ≡ p.misses)
          × ((f p).last_success ≡ p.last_success))
    → IsSafe f
IsSafe-aside f same = record {
  keeps_fit = λ k p h.
      let (name, healthy, misses, last) = same p in
      record {
        named = name ∙ h.named;
        proven = λ e. ((h.proven (sym healthy ∙ e)).0, last ∙ (h.proven (sym healthy ∙ e)).1);
        answering = λ e. rw misses (h.answering (sym healthy ∙ e));
      };
  keeps_proven = λ p (t, e). let (name, healthy, misses, last) = same p in (t, last ∙ e);
}

pub failed_carrier-IsSafe : IsSafe failed_carrier
unfolding failed_carrier
failed_carrier-IsSafe = record {
  keeps_fit = λ k p h. record {
    named = h.named;
    proven = λ e. absurd (grind (arith, e));
    answering = λ e. absurd (grind (arith, e));
  };
  keeps_proven = λ p h. h;
}

pub activated-IsSafe : (now : ℕ) → IsSafe (activated now)
unfolding activated
activated-IsSafe now = record {
  keeps_fit =
      λ k p h. record { named = h.named; proven = λ e. (now, refl); answering = λ e. omega arith };
  keeps_proven = λ p h. (now, refl);
}

pub miss-IsSafe : IsSafe (λ p. with_loss (miss (note_probe false p)))
unfolding miss note_probe
miss-IsSafe = record {
  keeps_fit = λ k p h. record {
    named = h.named;
    proven = λ e. ground (arith, h.proven);
    answering = λ e. ground (arith, h.proven);
  };
  keeps_proven = λ p h. h;
}

pub answer-IsSafe : (rtt now : ℕ) → IsSafe (λ p. with_loss (answer rtt now (note_probe true p)))
unfolding answer note_probe
answer-IsSafe rtt now = record {
  keeps_fit =
      λ k p h. record { named = h.named; proven = λ e. (now, refl); answering = λ e. omega arith };
  keeps_proven = λ p h. (now, refl);
}

pub probed-IsSafe : (rtt now : ℕ) (ok : Bool) → IsSafe (probed rtt ok now)
unfolding probed
probed-IsSafe rtt now true = answer-IsSafe rtt now
probed-IsSafe rtt now false = miss-IsSafe

pub counted-IsSafe :
    (n : ℕ) (allowed : Bool)
    → IsSafe (λ p.
      if allowed
      then record p { duplicated_bytes = (p.duplicated_bytes + n) % 2 ^ 64 }
      else record p {
        duplication_suppressed_bytes = (p.duplication_suppressed_bytes + n) % 2 ^ 64;
      })
counted-IsSafe n true = IsSafe-aside _ (λ p. (refl, refl, refl, refl))
counted-IsSafe n false = IsSafe-aside _ (λ p. (refl, refl, refl, refl))

pub raised-IsSafe :
    (mtu : ℕ) → IsSafe (λ p. if ltb p.datagram_mtu mtu then record p { datagram_mtu = mtu } else p)
raised-IsSafe mtu = IsSafe-aside _ (λ p. step p (ltb p.datagram_mtu mtu))
  where
    step :
        (p : Candidate) (b : Bool)
        → let q = if b then record p { datagram_mtu = mtu } else p in
          (q.name ≡ p.name)
          × (q.healthy ≡ p.healthy)
          × (q.misses ≡ p.misses)
          × (q.last_success ≡ p.last_success)
    step p true = (refl, refl, refl, refl)
    step p false = (refl, refl, refl, refl)

pub fresh : (name : String) (kind : PathKind) → IsFit name (new_candidate name kind)
unfolding new_candidate
fresh name kind = record {
  named = refl;
  proven = λ e. absurd (grind (arith, e));
  answering = λ e. absurd (grind (arith, e));
}

-- A candidate is written under its name.
pub insert-IsSound :
    (s : Scheduler) (name : String) (p : Candidate)
    → IsSound s
    → IsFit name p
    → ((old : Candidate) → candidate_of name s ≡ some old → IsProven old → IsProven p)
    → IsSound (record s { candidates = insert string_discrete name p s.candidates })
insert-IsSound s name p sound fits keeps = record {
  keyed = insert-IsMap string_discrete name p s.candidates sound.keyed;
  fit = λ k q e. elim (lookup-insert_cases string_discrete name k p q s.candidates e) [
    | inl (n, r) ↦ rw (← n, r) fits
    | inr old ↦ sound.fit k q old
  ];
  incumbent = λ k e. still k (string_discrete name k) (sound.incumbent k e);
}
  where
    still :
        (k : String)
        → Dec (name ≡ k)
        → (q : Candidate) × (candidate_of k s ≡ some q) × IsProven q
        → (q : Candidate) × (lookup string_discrete k (insert string_discrete name p s.candidates)
            ≡ some q)
          × IsProven q
    still k (yes n) (q, e, proven) = (
      p,
      lookup-insert string_discrete name k p s.candidates ∙ ground (arith, n),
      keeps q (rw n e) proven,
    )
    still k (no n) (q, e, proven) =
        (q, lookup-insert string_discrete name k p s.candidates ∙ ground (arith, n, e), proven)

pub on_candidate-IsSound :
    (name : String) (f : Candidate → Candidate) (s : Scheduler)
    → IsSafe f
    → IsSound s
    → IsSound (on_candidate name f s)
unfolding on_candidate
on_candidate-IsSound name f s safe sound = step (candidate_of name s) refl
  where
    step :
        (o : Option Candidate)
        → candidate_of name s ≡ o
        → IsSound (elim o [
          | none ↦ s
          | some p ↦ record s { candidates = insert string_discrete name (f p) s.candidates }
        ])
    step none e = sound
    step (some p) e =
        insert-IsSound s name (f p) sound (safe.keeps_fit name p (sound.fit name p e))
          (λ old e2 proven.
            let same : old ≡ p = grind (arith, e, e2) in
            safe.keeps_proven p (subst IsProven same proven))

pub register-IsSound :
    (name : String) (kind : PathKind) (s : Scheduler) → IsSound s → IsSound (register name kind s)
unfolding register
register-IsSound name kind s sound = step (candidate_of name s) refl
  where
    step :
        (o : Option Candidate)
        → candidate_of name s ≡ o
        → IsSound (elim o [
          | none ↦ record s {
            candidates = insert string_discrete name (new_candidate name kind) s.candidates;
          }
          | some p ↦ record s {
            candidates = insert string_discrete name (record p { kind = kind }) s.candidates;
          }
        ])
    step none e =
        insert-IsSound s name (new_candidate name kind) sound (fresh name kind)
          (λ old e2. absurd (grind (arith, e, e2)))
    step (some p) e =
        let fits = sound.fit name p e in
        insert-IsSound s name (record p { kind = kind }) sound
          (record { named = fits.named; proven = fits.proven; answering = fits.answering })
          (λ old e2 proven. let same : old ≡ p = grind (arith, e, e2) in subst IsProven same proven)

pub on_candidate-primary :
    (name : String) (f : Candidate → Candidate) (s : Scheduler)
    → (on_candidate name f s).primary ≡ s.primary
unfolding on_candidate
on_candidate-primary name f s = ground arith

pub candidate_of-on_candidate :
    (name : String) (f : Candidate → Candidate) (p : Candidate) (s : Scheduler)
    → candidate_of name s ≡ some p
    → candidate_of name (on_candidate name f s) ≡ some (f p)
unfolding on_candidate insert
candidate_of-on_candidate name f p s e =
    rw (e, on_candidate)
      (lookup-head string_discrete name (f p) (delete string_discrete name s.candidates))

-- A registered path that was reached becomes the incumbent.
pub commit-IsSound :
    (s : Scheduler) (name : String)
    → IsSound s
    → (p : Candidate) × (candidate_of name s ≡ some p) × IsProven p
    → IsSound (record s { primary = some name })
commit-IsSound s name sound found = record {
  keyed = sound.keyed;
  fit = sound.fit;
  incumbent = λ k e.
      let same : name ≡ k = grind (arith, e) in
      subst (λ n. (p : Candidate) × (candidate_of n s ≡ some p) × IsProven p) same found;
}

pub activate_carrier-IsSound :
    (name : String) (now : ℕ) (s : Scheduler) → IsSound s → IsSound (activate_carrier name now s)
unfolding activate_carrier activated
activate_carrier-IsSound name now s sound = step (candidate_of name s) refl
  where
    step :
        (o : Option Candidate)
        → candidate_of name s ≡ o
        → IsSound (elim o [
          | none ↦ s
          | some p ↦ record (on_candidate name (activated now) s) {
            primary = or_first s.primary name;
          }
        ])
    step none e = sound
    step (some p) e = commit s.primary refl
      where
        next : Scheduler
        next = on_candidate name (activated now) s

        well : IsSound next
        well = on_candidate-IsSound name (activated now) s (activated-IsSafe now) sound

        now_proven : (q : Candidate) × (candidate_of name next ≡ some q) × IsProven q
        now_proven =
            (activated now p, candidate_of-on_candidate name (activated now) p s e, (now, refl))

        commit :
            (o : Option String)
            → s.primary ≡ o
            → IsSound (record next { primary = or_first o name })
        commit none e = commit-IsSound next name well now_proven
        commit (some k) e =
            commit-IsSound next k well
              (well.incumbent k (on_candidate-primary name (activated now) s ∙ e))
