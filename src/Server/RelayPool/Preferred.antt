-- ===== src/Server/RelayPool/Preferred.antt =====
-- The choice of the preferred member, `choosePreferred` of pkg/server/relaypool.go.
use ntwire.Base.{
  ℕ, suc, ◌+◌, ◌≡◌, refl, sym, ap, subst, ◌∙◌, Bool, true, false, ◌&&◌, Option, none, some, List,
  [], ◌∷◌, arith, if◌then◌else◌,
}
use ntwire.Server.RelayPool.{Member, member_at, score, beats, best_from, choose_preferred, healthy}

-- A member of the list that is registered.
abbrev pub IsRegistered : List Member → ℕ → Type 0
IsRegistered ms i = (m : Member) × (member_at ms i ≡ some m) × (m.registered ≡ true)

abbrev IsBest : List Member → Option (ℕ × (ℕ × ℕ)) → Type 0
IsBest all none = Unit
IsBest all (some (j, sc)) = IsRegistered all j

abbrev pub IsResult : List Member → Option ℕ → Type 0
IsResult all none = Unit
IsResult all (some j) = IsRegistered all j

best_from-IsResult :
    (stats : ℕ → ℕ × ℕ) (all : List Member) (i : ℕ) (ms : List Member) (best : Option (ℕ × (ℕ × ℕ)))
    → ((k : ℕ) → member_at all (i + k) ≡ member_at ms k)
    → IsBest all best
    → IsResult all (best_from stats i ms best)
unfolding best_from
best_from-IsResult stats all i [] none at b = tt
best_from-IsResult stats all i [] (some (j, sc)) at b = b
best_from-IsResult stats all i (m ∷ ms) best at b =
    best_from-IsResult stats all (suc i) ms
      (if m.registered && beats (score (stats i) m) best then some (i, score (stats i) m) else best)
      (λ k. ap (member_at all) (omega arith) ∙ at (suc k))
      (step (beats (score (stats i) m) best) (m.registered) refl)
  where
    here : member_at all i ≡ some m
    here = ap (member_at all) (omega arith) ∙ at 0

    step :
        (w r : Bool)
        → m.registered ≡ r
        → IsBest all (if r && w then some (i, score (stats i) m) else best)
    step w false e = b
    step true true e = (m, here, e)
    step false true e = b

best_from-none :
    (stats : ℕ → ℕ × ℕ) (i : ℕ) (ms : List Member) (best : Option (ℕ × (ℕ × ℕ)))
    → best_from stats i ms best ≡ none
    → (best ≡ none) × (healthy ms ≡ false)
unfolding best_from healthy
best_from-none stats i [] none e = (refl, refl)
best_from-none stats i [] (some (j, sc)) e = absurd (grind (arith, e))
best_from-none stats i (m ∷ ms) best e = step m.registered best (
    best_from-none stats (suc i) ms
      (if m.registered && beats (score (stats i) m) best then some (i, score (stats i) m) else best)
      e)
  where
    step :
        (r : Bool) (o : Option (ℕ × (ℕ × ℕ)))
        → ((if r && beats (score (stats i) m) o then some (i, score (stats i) m) else o) ≡ none)
          × (healthy ms ≡ false)
        → (o ≡ none) × ((if r then true else healthy ms) ≡ false)
    step false o h = h
    step true o h = ground (arith, h)

-- The preferred member is registered, there is one whenever a member is registered, and a registered
-- current one is kept.
pub choose_preferred-Registered :
    (stats : ℕ → ℕ × ℕ) (ms : List Member) (current : Option ℕ)
    → IsResult ms (choose_preferred stats ms current)
      × (choose_preferred stats ms current ≡ none → healthy ms ≡ false)
      × ((i : ℕ)
          → current ≡ some i
          → IsRegistered ms i
          → choose_preferred stats ms current ≡ current)
unfolding choose_preferred
choose_preferred-Registered stats ms none = (found, best_none, λ i e r. absurd (grind (arith, e)))
  where
    found : IsResult ms (best_from stats 0 ms none)
    found = best_from-IsResult stats ms 0 ms none (λ k. ap (member_at ms) (omega arith)) tt

    best_none : best_from stats 0 ms none ≡ none → healthy ms ≡ false
    best_none e = (best_from-none stats 0 ms none e).1
choose_preferred-Registered stats ms (some j) = step (member_at ms j) refl
  where
    best : Option ℕ
    best = best_from stats 0 ms none

    found : IsResult ms best
    found = best_from-IsResult stats ms 0 ms none (λ k. ap (member_at ms) (omega arith)) tt

    other :
        (o : Option Member)
        → member_at ms j ≡ o
        → ((m : Member) → o ≡ some m → m.registered ≡ false)
        → IsResult ms best
          × (best ≡ none → healthy ms ≡ false)
          × ((i : ℕ) → some j ≡ some i → IsRegistered ms i → best ≡ some j)
    other o e un = (
      found,
      λ b. (best_from-none stats 0 ms none b).1,
      λ i same (m, at, r).
          let eq : j ≡ i = grind (arith, same) in
          absurd (grind (arith, r, un m (sym e ∙ ap (member_at ms) eq ∙ at))),
    )

    step :
        (o : Option Member)
        → member_at ms j ≡ o
        → let r : Option ℕ = elim o [
          | none ↦ best
          | some m ↦ if m.registered then some j else best
        ] in
          IsResult ms r
          × (r ≡ none → healthy ms ≡ false)
          × ((i : ℕ) → some j ≡ some i → IsRegistered ms i → r ≡ some j)
    step none e = other none e (λ m f. absurd (grind (arith, f)))
    step (some m) e = kept m.registered refl
      where
        kept :
            (b : Bool)
            → m.registered ≡ b
            → let r : Option ℕ = if b then some j else best in
              IsResult ms r
              × (r ≡ none → healthy ms ≡ false)
              × ((i : ℕ) → some j ≡ some i → IsRegistered ms i → r ≡ some j)
        kept true f = ((m, e, f), λ n. absurd (grind (arith, n)), λ i s r. refl)
        kept false f = other (some m) e (λ q g.
            let same : m ≡ q = grind (arith, g) in
            subst (λ (x : Member). x.registered ≡ false) same f)
