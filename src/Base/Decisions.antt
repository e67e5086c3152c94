-- ===== src/Base/Decisions.antt =====
-- Decided equality of options, pairs and lists, which computes.
use mathlib.Core.Path.{◌≡◌, refl, sym, ap}
use mathlib.Core.List.{List, [], ◌∷◌}
use mathlib.Core.Logic.{◌≢◌}
use mathlib.Core.Option.{Option, none, some}
use native.Mathlib.Omega.{arith}

module _ {A : Type 0} where
  pub none-some : {a : A} → none ≢ some a
  none-some e = grind (arith, e)

  pub nil-cons : {a : A} {xs : List A} → [] ≢ a ∷ xs
  nil-cons e = grind (arith, e)

  both_some : {a b : A} → Dec (a ≡ b) → Dec (some a ≡ some b)
  both_some (yes e) = yes (ap some e)
  both_some (no n) = no (λ e. n (grind (arith, e)))

  unfoldable pub option_discrete : Discrete A → Discrete (Option A)
  unfolding both_some
  option_discrete d none none = yes refl
  option_discrete d none (some b) = no none-some
  option_discrete d (some a) none = no (λ e. none-some (sym e))
  option_discrete d (some a) (some b) = both_some (d a b)

  both_cons : {a b : A} {xs ys : List A} → Dec (a ≡ b) → Dec (xs ≡ ys) → Dec (a ∷ xs ≡ b ∷ ys)
  both_cons (yes p) (yes q) = yes (cc (p, q))
  both_cons (yes p) (no n) = no (λ e. n (grind (arith, e)))
  both_cons (no n) _ = no (λ e. n (grind (arith, e)))

  unfoldable pub list_discrete : Discrete A → Discrete (List A)
  unfolding both_cons
  list_discrete d [] [] = yes refl
  list_discrete d [] (b ∷ ys) = no nil-cons
  list_discrete d (a ∷ xs) [] = no (λ e. nil-cons (sym e))
  list_discrete d (a ∷ xs) (b ∷ ys) = both_cons (d a b) (list_discrete d xs ys)

module _ {A B : Type 0} where
  both_parts : {x y : A × B} → Dec (x.0 ≡ y.0) → Dec (x.1 ≡ y.1) → Dec (x ≡ y)
  both_parts (yes p) (yes q) = yes (cc (p, q))
  both_parts (yes p) (no n) = no (λ e. n (ap (λ z. z.1) e))
  both_parts (no n) _ = no (λ e. n (ap (λ z. z.0) e))

  unfoldable pub pair_discrete : Discrete A → Discrete B → Discrete (A × B)
  unfolding both_parts
  pair_discrete d c x y = both_parts (d x.0 y.0) (c x.1 y.1)
