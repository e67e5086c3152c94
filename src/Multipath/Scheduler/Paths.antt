-- ===== src/Multipath/Scheduler/Paths.antt =====
-- Lists of candidates: the healthy ones, the one of a name, and the order of
-- pkg/wstransport/multipath.go.
use ntwire.Base.{
  ℕ, ◌≤◌, String, ◌≡◌, refl, sym, ap, subst, ◌∙◌, ◌≢◌, ◌⊎◌, inl, inr, Bool, true, false, Option,
  none, some, List, [], ◌∷◌, arith, if◌then◌else◌, string_discrete, test,
}
use ntwire.Multipath.Candidate.{Candidate, Loss}
use ntwire.Multipath.Scheduler.{
  healthy_ones, find_name, find_candidate, score, ranks_before, insert_path, sort_paths,
}

-- A list has a candidate.
abbrev pub Has : Candidate → List Candidate → Type 0
Has p [] = ⊥
Has p (q ∷ qs) = (p ≡ q) ⊎ Has p qs

Has-if :
    (p : Candidate) (b : Bool) (xs ys : List Candidate)
    → Has p (if b then xs else ys)
    → ((b ≡ true) × Has p xs) ⊎ ((b ≡ false) × Has p ys)
Has-if p true xs ys m = inl (refl, m)
Has-if p false xs ys m = inr (refl, m)

if-Has :
    (p : Candidate) (b : Bool) (xs ys : List Candidate)
    → (b ≡ true → Has p xs)
    → (b ≡ false → Has p ys)
    → Has p (if b then xs else ys)
if-Has p true xs ys f g = f refl
if-Has p false xs ys f g = g refl

pub Has-healthy_ones :
    (p : Candidate) (ps : List Candidate) → Has p ps → p.healthy ≡ true → Has p (healthy_ones ps)
unfolding healthy_ones
Has-healthy_ones p [] m h = m
Has-healthy_ones p (q ∷ qs) (inl e) h = rw (← e, h) (inl refl)
Has-healthy_ones p (q ∷ qs) (inr m) h =
    let ih = Has-healthy_ones p qs m h in
    if-Has p q.healthy (q ∷ healthy_ones qs) (healthy_ones qs) (λ _. inr ih) (λ _. ih)

pub healthy_ones-Has :
    (p : Candidate) (ps : List Candidate) → Has p (healthy_ones ps) → Has p ps × (p.healthy ≡ true)
unfolding healthy_ones
healthy_ones-Has p [] m = elim m [ ]
healthy_ones-Has p (q ∷ qs) m =
    let rest : Has p (healthy_ones qs) → Has p (q ∷ qs) × (p.healthy ≡ true) =
      λ n. (inr (healthy_ones-Has p qs n).0, (healthy_ones-Has p qs n).1) in
    elim (Has-if p q.healthy (q ∷ healthy_ones qs) (healthy_ones qs) m) [
      | inl (h, inl e) ↦ (inl e, ap (λ (c : Candidate). c.healthy) e ∙ h)
      | inl (h, inr n) ↦ rest n
      | inr (h, n) ↦ rest n
    ]

-- What a search by name finds.
abbrev pub Found : String → List Candidate → Option Candidate → Type 0
Found name ps (some p) = Has p ps × (p.name ≡ name)
Found name ps none = (p : Candidate) → Has p ps → p.name ≢ name

pub find_name-Found : (name : String) (ps : List Candidate) → Found name ps (find_name name ps)
unfolding find_name
find_name-Found name [] = λ p m. absurd m
find_name-Found name (q ∷ qs) =
    step (string_discrete q.name name) (find_name name qs) (find_name-Found name qs)
  where
    step :
        (d : Dec (q.name ≡ name)) (r : Option Candidate)
        → Found name qs r
        → Found name (q ∷ qs) (if test d then some q else r)
    step (yes e) r f = (inl refl, e)
    step (no ne) (some p) (m, e) = (inr m, e)
    step (no ne) none f = λ p m. elim m [
      | inl e ↦ subst (λ (c : Candidate). c.name ≢ name) (sym e) ne
      | inr n ↦ f p n
    ]

-- The same for `findCandidate`, which finds nothing of no name.
pub find_candidate-Found :
    (name : String) (ps : List Candidate)
    → Found name ps (find_candidate ps name) ⊎ ((name ≡ "") × (find_candidate ps name ≡ none))
unfolding find_candidate
find_candidate-Found name ps = step (string_discrete name "")
  where
    step :
        (d : Dec (name ≡ ""))
        → Found name ps (if test d then none else find_name name ps)
          ⊎ ((name ≡ "") × ((if test d then none else find_name name ps) ≡ none))
    step (yes e) = inr (e, refl)
    step (no ne) = inl (find_name-Found name ps)

module _ (penalty : Loss → ℕ) where
  Has-insert_path :
      (p q : Candidate) (ps : List Candidate)
      → (p ≡ q) ⊎ Has p ps
      → Has p (insert_path penalty q ps)
  unfolding insert_path
  Has-insert_path p q [] m = m
  Has-insert_path p q (r ∷ rs) m =
      if-Has p (ranks_before penalty r q) (r ∷ insert_path penalty q rs) (q ∷ r ∷ rs)
        (λ _. elim m [
          | inl e ↦ inr (Has-insert_path p q rs (inl e))
          | inr (inl e) ↦ inl e
          | inr (inr n) ↦ inr (Has-insert_path p q rs (inr n))
        ])
        (λ _. m)

  insert_path-Has :
      (p q : Candidate) (ps : List Candidate)
      → Has p (insert_path penalty q ps)
      → (p ≡ q) ⊎ Has p ps
  unfolding insert_path
  insert_path-Has p q [] m = m
  insert_path-Has p q (r ∷ rs) m =
      elim (Has-if p (ranks_before penalty r q) (r ∷ insert_path penalty q rs) (q ∷ r ∷ rs) m) [
        | inl (_, inl e) ↦ inr (inl e)
        | inl (_, inr n) ↦ elim (insert_path-Has p q rs n) [ inl e ↦ inl e | inr k ↦ inr (inr k) ]
        | inr (_, k) ↦ k
      ]

  pub Has-sort_paths :
      (p : Candidate) (ps : List Candidate) → Has p ps → Has p (sort_paths penalty ps)
  unfolding sort_paths
  Has-sort_paths p [] m = m
  Has-sort_paths p (q ∷ qs) (inl e) = Has-insert_path p q (sort_paths penalty qs) (inl e)
  Has-sort_paths p (q ∷ qs) (inr m) =
      Has-insert_path p q (sort_paths penalty qs) (inr (Has-sort_paths p qs m))

  pub sort_paths-Has :
      (p : Candidate) (ps : List Candidate) → Has p (sort_paths penalty ps) → Has p ps
  unfolding sort_paths
  sort_paths-Has p [] m = m
  sort_paths-Has p (q ∷ qs) m = elim (insert_path-Has p q (sort_paths penalty qs) m) [
    | inl e ↦ inl e
    | inr n ↦ inr (sort_paths-Has p qs n)
  ]

  -- No path of the list has a lower score.
  abbrev pub IsLowest : Candidate → List Candidate → Type 0
  IsLowest p ps = (q : Candidate) → Has q ps → score penalty p ≤ score penalty q

  abbrev pub HeadIsLowest : List Candidate → Type 0
  HeadIsLowest [] = Unit
  HeadIsLowest (p ∷ ps) = IsLowest p (p ∷ ps)

  ranks_before-le :
      (p q : Candidate) → ranks_before penalty p q ≡ true → score penalty p ≤ score penalty q
  ranks_before-le p q t = ground arith

  not-ranks_before-le :
      (p q : Candidate) → ranks_before penalty p q ≡ false → score penalty q ≤ score penalty p
  not-ranks_before-le p q f = ground arith

  lowest_if :
      (b : Bool) (p q : Candidate) (ps qs : List Candidate)
      → (b ≡ true → IsLowest p (p ∷ ps))
      → (b ≡ false → IsLowest q (q ∷ qs))
      → HeadIsLowest (if b then p ∷ ps else q ∷ qs)
  lowest_if true p q ps qs f g = f refl
  lowest_if false p q ps qs f g = g refl

  insert_path-HeadIsLowest :
      (q : Candidate) (ps : List Candidate)
      → HeadIsLowest ps
      → HeadIsLowest (insert_path penalty q ps)
  unfolding insert_path
  insert_path-HeadIsLowest q [] h = λ r m. elim m [ inl e ↦ rw e (omega arith) | inr n ↦ absurd n ]
  insert_path-HeadIsLowest q (r ∷ rs) h =
      lowest_if (ranks_before penalty r q) r q (insert_path penalty q rs) (r ∷ rs)
        (λ t x m. elim m [
          | inl e ↦ rw e (omega arith)
          | inr n ↦ elim (insert_path-Has x q rs n) [
            | inl e ↦ rw e (ranks_before-le r q t)
            | inr k ↦ h x (inr k)
          ]
        ])
        (λ f x m. elim m [
          | inl e ↦ rw e (omega arith)
          | inr n ↦ omega (arith, not-ranks_before-le r q f, h x n)
        ])

  pub sort_paths-HeadIsLowest : (ps : List Candidate) → HeadIsLowest (sort_paths penalty ps)
  unfolding sort_paths
  sort_paths-HeadIsLowest [] = tt
  sort_paths-HeadIsLowest (p ∷ ps) =
      insert_path-HeadIsLowest p (sort_paths penalty ps) (sort_paths-HeadIsLowest ps)
