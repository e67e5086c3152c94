-- ===== src/Base/Tests.antt =====
-- Boolean tests on the native numbers, the conditional, and splits that keep the equation.
use Prim.Native.Nat.{ℕ, compare, Ordering}
use Prim.Native.String.{String}
use mathlib.Core.Path.{◌≡◌, refl}
use mathlib.Core.Logic.{◌⊎◌, inl, inr}
use mathlib.Core.Bool.{Bool, true, false}
use mathlib.Core.Option.{Option, none, some}
use native.Mathlib.Omega.{arith}
use text.Mathlib.Text.{◌==◌ as str_eq}
use text.Mathlib.TextEquality.{eq_iff}

abbrev pub ltb : ℕ → ℕ → Bool
ltb a b = elim (compare a b) [ Ordering.lt ↦ true | _ ↦ false ]

abbrev pub leb : ℕ → ℕ → Bool
leb a b = elim (compare a b) [ Ordering.gt ↦ false | _ ↦ true ]

infix 50 ◌==◌
abbrev pub ◌==◌ : ℕ → ℕ → Bool
a == b = elim (compare a b) [ Ordering.eq ↦ true | _ ↦ false ]

infix 1 if◌then◌else◌
abbrev pub if◌then◌else◌ {ℓ} : {A : Type ℓ} → Bool → A → A → A
if true then x else y = x
if false then x else y = y

pub Bool-cases : (b : Bool) → (b ≡ true) ⊎ (b ≡ false)
Bool-cases true = inl refl
Bool-cases false = inr refl

pub Option-cases {ℓ} : {A : Type ℓ} (o : Option A) → (o ≡ none) ⊎ ((a : A) × (o ≡ some a))
Option-cases none = inl refl
Option-cases (some a) = inr (a, refl)

-- Whole texts are compared through a decision, which the tactics split on.
string_decide : (a b : String) (t : Bool) → str_eq a b ≡ t → Dec (a ≡ b)
string_decide a b true e = yes ((eq_iff a b).0 e)
string_decide a b false e = no (λ p. ground (arith, (eq_iff a b).1 p))

unfoldable pub string_discrete : Discrete String
unfolding string_decide
string_discrete a b = string_decide a b (str_eq a b) refl

-- A decision as a test.
abbrev pub test {ℓ} : {A : Type ℓ} → Dec A → Bool
test (yes p) = true
test (no p) = false

-- Two texts compared.
abbrev pub is_text : String → String → Bool
is_text s t = test (string_discrete s t)

-- A decision that computes to a refusal.
pub refuted {ℓ} : {A : Type ℓ} (d : Dec A) → test d ≡ false → A → ⊥
refuted (yes p) e = absurd (grind (arith, e))
refuted (no ne) e = ne
