-- ===== src/Multipath/Scheduler/Selection.antt =====
-- Which path `Select` of pkg/wstransport/multipath.go takes.
use ntwire.Base.{
  ℕ, String, ◌≡◌, refl, sym, subst, ◌≢◌, inl, inr, true, Option, none, some, List, [], ◌∷◌, arith,
  if◌then◌else◌, string_discrete, test,
}
use ntwire.Multipath.Candidate.{Candidate, Loss}
use ntwire.Multipath.Scheduler.{
  Scheduler, Selected, text_of, values, healthy_ones, find_candidate, sort_paths, choose,
  select_healthy, select_from, select,
}
use ntwire.Multipath.Scheduler.Paths.{
  Has, Has-healthy_ones, healthy_ones-Has, Found, find_candidate-Found, Has-sort_paths,
  sort_paths-Has, IsLowest, HeadIsLowest, sort_paths-HeadIsLowest,
}

-- A name that a candidate of the list has, and that is not empty.
abbrev pub Available : String → List Candidate → Type 0
Available name ps = (name ≢ "") × (p : Candidate) × Has p ps × (p.name ≡ name)

not-Available :
    (name : String) (ps : List Candidate)
    → ((p : Candidate) → Has p ps → p.name ≢ name)
    → ¬ Available name ps
not-Available name ps f (ne, p, m, e) = f p m e

not-Available_empty : (name : String) (ps : List Candidate) → name ≡ "" → ¬ Available name ps
not-Available_empty name ps e (ne, p, m, n) = ne e

-- What the search says of a name.
Searched : String → List Candidate → Option Candidate → Type 0
Searched name ps (some p) = Has p ps × (p.name ≡ name)
Searched name ps none = ¬ Available name ps

find_candidate-Searched :
    (name : String) (ps : List Candidate) → Searched name ps (find_candidate ps name)
unfolding Searched
find_candidate-Searched name ps = elim (find_candidate-Found name ps) [
  | inl f ↦ step (find_candidate ps name) f
  | inr (empty, e) ↦ rw e (not-Available_empty name ps empty)
]
  where
    step : (r : Option Candidate) → Found name ps r → Searched name ps r
    step (some p) f = f
    step none f = not-Available name ps f

found_or :
    (name : String) (ps : List Candidate) (r : Option Candidate)
    → Searched name ps r
    → (d : Candidate) → Has d ps
    → Has (elim r [ some p ↦ p | none ↦ d ]) ps
unfolding Searched
found_or name ps (some p) (m, e) d h = m
found_or name ps none n d h = h

module _ (penalty : Loss → ℕ) (s : Scheduler) where
  -- The policy: a forced path goes first, then the incumbent, then a path of the lowest score.
  pub data IsChosen (c : Candidate) (ps : List Candidate) : Type 0 where
    by_force : c.name ≡ text_of s.forced → IsChosen c ps
    by_habit : ¬ Available (text_of s.forced) ps → c.name ≡ text_of s.primary → IsChosen c ps
    by_score :
        ¬ Available (text_of s.forced) ps
        → ¬ Available (text_of s.primary) ps
        → IsLowest penalty c ps
        → IsChosen c ps

  choose-IsChosen :
      (best : Candidate) (paths : List Candidate)
      → IsLowest penalty best (best ∷ paths)
      → Has (choose penalty s best paths) (best ∷ paths)
        × IsChosen (choose penalty s best paths) (best ∷ paths)
  unfolding choose Searched
  choose-IsChosen best paths low =
      first (find_candidate ps (text_of s.forced)) (find_candidate-Searched (text_of s.forced) ps)
    where
      ps : List Candidate
      ps = best ∷ paths

      second :
          ¬ Available (text_of s.forced) ps
          → (r : Option Candidate) → Searched (text_of s.primary) ps r
          → Has (elim r [ some p ↦ p | none ↦ best ]) ps
            × IsChosen (elim r [ some p ↦ p | none ↦ best ]) ps
      second nf (some p) (m, e) = (m, by_habit nf e)
      second nf none np = (inl refl, by_score nf np low)

      first :
          (r : Option Candidate)
          → Searched (text_of s.forced) ps r
          → Has
              (elim r [
                | some p ↦ p
                | none ↦ elim (find_candidate ps (text_of s.primary)) [ some p ↦ p | none ↦ best ]
              ])
              ps
            × IsChosen
                (elim r [
                  | some p ↦ p
                  | none ↦ elim (find_candidate ps (text_of s.primary)) [ some p ↦ p | none ↦ best ]
                ])
                ps
      first (some p) (m, e) = (m, by_force e)
      first none nf =
          second nf (find_candidate ps (text_of s.primary))
            (find_candidate-Searched (text_of s.primary) ps)

  -- The choice is in the list.
  pub choose-Has :
      (best : Candidate) (paths : List Candidate) → Has (choose penalty s best paths) (best ∷ paths)
  unfolding choose
  choose-Has best paths =
      let ps = best ∷ paths in
      let forced = find_candidate-Searched (text_of s.forced) ps in
      let incumbent = find_candidate-Searched (text_of s.primary) ps in
      found_or (text_of s.forced) ps (find_candidate ps (text_of s.forced)) forced _ (
        found_or (text_of s.primary) ps (find_candidate ps (text_of s.primary)) incumbent best
          (inl refl))

  not-Available-sort_paths :
      (name : String) (ps : List Candidate)
      → ¬ Available name (sort_paths penalty ps)
      → ¬ Available name ps
  not-Available-sort_paths name ps n (ne, p, m, e) = n (ne, p, Has-sort_paths penalty p ps m, e)

  -- The order of the list is no part of the policy.
  IsChosen-sort_paths :
      (c : Candidate) (ps : List Candidate) → IsChosen c (sort_paths penalty ps) → IsChosen c ps
  IsChosen-sort_paths c ps (by_force e) = by_force e
  IsChosen-sort_paths c ps (by_habit nf e) =
      by_habit (not-Available-sort_paths (text_of s.forced) ps nf) e
  IsChosen-sort_paths c ps (by_score nf np low) =
      by_score (not-Available-sort_paths (text_of s.forced) ps nf)
        (not-Available-sort_paths (text_of s.primary) ps np)
        (λ q m. low q (Has-sort_paths penalty q ps m))

  -- What is selected where a path is healthy.
  pub record Selects (r : Scheduler × Selected) (ps : List Candidate) : Type 0 where
    pub chosen : Candidate
    pub listed : Has chosen ps
    pub chosen_healthy : chosen.healthy ≡ true
    pub selected : r.1.primary ≡ chosen.name
    pub remembered : text_of r.0.primary ≡ chosen.name
    pub policy : IsChosen chosen (healthy_ones ps)

  select_healthy-primary :
      (best : Candidate) (paths : List Candidate)
      → (select_healthy penalty s best paths).1.primary ≡ (choose penalty s best paths).name
  unfolding select_healthy
  select_healthy-primary best paths = ground arith

  select_healthy-remembers :
      (best : Candidate) (paths : List Candidate)
      → text_of (select_healthy penalty s best paths).0.primary ≡ (choose penalty s best paths).name
  unfolding select_healthy
  select_healthy-remembers best paths =
      step (string_discrete (choose penalty s best paths).name (text_of s.primary))
    where
      c : String
      c = (choose penalty s best paths).name

      step :
          (d : Dec (c ≡ text_of s.primary))
          → text_of (if test d then s else record s { primary = some c }).primary ≡ c
      step (yes e) = sym e
      step (no ne) = refl

  -- If a path is healthy, `Select` takes a healthy path and makes it the incumbent: the forced path if it
  -- is healthy, else the incumbent if it is healthy, else one that no healthy path scores below.
  pub select-Selects :
      (p : Candidate)
      → Has p (values s.candidates)
      → p.healthy ≡ true
      → Selects (select penalty s) (values s.candidates)
  unfolding select
  select-Selects p m h = step (sort_paths penalty hs) refl
    where
      ps : List Candidate
      ps = values s.candidates

      hs : List Candidate
      hs = healthy_ones ps

      step :
          (l : List Candidate) → sort_paths penalty hs ≡ l → Selects (select_from penalty s l ps) ps
      step [] e = absurd (subst (Has p) e (Has-sort_paths penalty p hs (Has-healthy_ones p ps m h)))
      step (best ∷ paths) e =
          let low = subst (HeadIsLowest penalty) e (sort_paths-HeadIsLowest penalty hs) in
          let (in_list, chosen) = choose-IsChosen best paths low in
          let c = choose penalty s best paths in
          let sorted = subst (Has c) (sym e) in_list in
          let (listed, well) = healthy_ones-Has c ps (sort_paths-Has penalty c hs sorted) in
          record {
            chosen = c;
            listed = listed;
            chosen_healthy = well;
            selected = select_healthy-primary best paths;
            remembered = select_healthy-remembers best paths;
            policy = IsChosen-sort_paths c hs (subst (IsChosen c) (sym e) chosen);
          }
