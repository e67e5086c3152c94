-- ===== src/Base/Maps.antt =====
-- Go's maps as association lists with each key once. The order of the list is the order in which
-- a `range` loop visits the entries; Go leaves that order open, so statements hold for any list.
use Prim.Native.Nat.{◌≤◌, ℕ, suc, ◌+◌}
use mathlib.Core.Path.{◌≡◌, refl}
use mathlib.Core.Logic.{◌⊎◌, inl, inr, ite}
use mathlib.Core.List.{List, [], ◌∷◌}
use mathlib.Core.Bool.{Bool, true, false}
use mathlib.Core.Option.{Option, none, some}
use native.Mathlib.Omega.{arith}
use ntwire.Base.Tests.{Option-cases}
use ntwire.Base.Lists.{length, bit}

abbrev pub Map : Type 0 → Type 0 → Type 0
Map K V = List (K × V)

-- How many entries pass a test.
unfoldable pub tally : {K V : Type 0} → (V → Bool) → Map K V → ℕ
tally p [] = 0
tally p ((j, v) ∷ m) = bit (p v) + tally p m

module _ {K V : Type 0} (dec : Discrete K) where
  -- v, ok := m[k]
  unfoldable pub lookup : K → Map K V → Option V
  lookup k [] = none
  lookup k ((j, v) ∷ m) = ite (dec j k) (some v) (lookup k m)

  -- delete(m, k)
  unfoldable pub delete : K → Map K V → Map K V
  delete k [] = []
  delete k ((j, v) ∷ m) = let rest = delete k m in ite (dec j k) rest ((j, v) ∷ rest)

  -- m[k] = v
  unfoldable pub insert : K → V → Map K V → Map K V
  insert k v m = (k, v) ∷ delete k m

  pub lookup-delete :
      (k j : K) (m : Map K V) → lookup j (delete k m) ≡ ite (dec k j) none (lookup j m)
  unfolding lookup delete
  lookup-delete k j [] = ground arith
  lookup-delete k j ((i, v) ∷ m) = ground (arith, lookup-delete k j m)

  pub lookup-insert :
      (k j : K) (v : V) (m : Map K V)
      → lookup j (insert k v m) ≡ ite (dec k j) (some v) (lookup j m)
  unfolding lookup insert
  lookup-insert k j v m = ground (arith, lookup-delete k j m)

  -- m[k] with the value that stands for a missing key
  abbrev pub get_or : K → Map K V → V → V
  get_or k m d = elim (lookup k m) [ none ↦ d | some v ↦ v ]

  abbrev pub has : K → Map K V → Bool
  has k m = elim (lookup k m) [ none ↦ false | some v ↦ true ]

  -- Each key stands once.
  abbrev pub IsMap : Map K V → Type 0
  IsMap [] = Unit
  IsMap ((j, v) ∷ m) = (lookup j m ≡ none) × IsMap m

  pub delete-IsMap : (k : K) (m : Map K V) → IsMap m → IsMap (delete k m)
  unfolding delete
  delete-IsMap k [] h = tt
  delete-IsMap k ((j, v) ∷ m) (fresh, h) = ground (arith, delete-IsMap k m h, lookup-delete k j m)

  pub insert-IsMap : (k : K) (v : V) (m : Map K V) → IsMap m → IsMap (insert k v m)
  unfolding insert
  insert-IsMap k v m h = ground (arith, delete-IsMap k m h, lookup-delete k k m)

  pub delete_absent : (k : K) (m : Map K V) → lookup k m ≡ none → delete k m ≡ m
  unfolding lookup delete
  delete_absent k [] h = refl
  delete_absent k ((j, v) ∷ m) h = ground (arith, delete_absent k m)

  pub tally-delete :
      (p : V → Bool) (k : K) (v : V) (m : Map K V)
      → IsMap m
      → lookup k m ≡ some v
      → bit (p v) + tally p (delete k m) ≡ tally p m
  unfolding lookup delete tally
  tally-delete p k v [] h e = ground arith
  tally-delete p k v ((j, w) ∷ m) (fresh, h) e =
      ground (arith, delete_absent k m, tally-delete p k v m h)

  pub length-delete :
      (k : K) (v : V) (m : Map K V)
      → IsMap m
      → lookup k m ≡ some v
      → suc (length (delete k m)) ≡ length m
  unfolding lookup delete
  length-delete k v [] h e = ground arith
  length-delete k v ((j, w) ∷ m) (fresh, h) e =
      ground (arith, delete_absent k m, length-delete k v m h)

  pub tally-insert_absent :
      (p : V → Bool) (k : K) (v : V) (m : Map K V)
      → lookup k m ≡ none
      → tally p (insert k v m) ≡ bit (p v) + tally p m
  unfolding insert tally
  tally-insert_absent p k v m e = rw (delete_absent k m e)

  pub tally-insert_present :
      (p : V → Bool) (k : K) (v w : V) (m : Map K V)
      → IsMap m
      → lookup k m ≡ some w
      → bit (p w) + tally p (insert k v m) ≡ bit (p v) + tally p m
  unfolding insert tally
  tally-insert_present p k v w m h e = omega (arith, tally-delete p k w m h e)

  pub bit-has-le : (k : K) (m : Map K V) → bit (has k m) ≤ 1
  bit-has-le k m = ground arith

  pub lookup-head : (k : K) (v : V) (m : Map K V) → lookup k ((k, v) ∷ m) ≡ some v
  unfolding lookup
  lookup-head k v m = ground arith

  pub tally-delete-le : (p : V → Bool) (k : K) (m : Map K V) → tally p (delete k m) ≤ tally p m
  unfolding delete tally
  tally-delete-le p k [] = omega arith
  tally-delete-le p k ((j, v) ∷ m) = ground (arith, tally-delete-le p k m)

  pub length-delete-le : (k : K) (m : Map K V) → length (delete k m) ≤ length m
  unfolding delete
  length-delete-le k [] = omega arith
  length-delete-le k ((j, v) ∷ m) = ground (arith, length-delete-le k m)

  pub length-insert-le : (k : K) (v : V) (m : Map K V) → length (insert k v m) ≤ suc (length m)
  unfolding insert
  length-insert-le k v m = omega (arith, length-delete-le k m)

  pub tally-insert-le :
      (p : V → Bool) (k : K) (v : V) (m : Map K V) → tally p (insert k v m) ≤ suc (tally p m)
  unfolding insert tally
  tally-insert-le p k v m = ground (arith, tally-delete-le p k m)

  pub tail-lookup :
      (j k : K) (w v : V) (m : Map K V)
      → lookup j m ≡ none
      → lookup k m ≡ some v
      → lookup k ((j, w) ∷ m) ≡ some v
  unfolding lookup
  tail-lookup j k w v m fresh e = ground arith

  pub tally_all :
      (p : V → Bool) (m : Map K V)
      → IsMap m
      → ((k : K) (v : V) → lookup k m ≡ some v → p v ≡ true)
      → tally p m ≡ length m
  unfolding tally
  tally_all p [] h all = refl
  tally_all p ((j, w) ∷ m) (fresh, h) all = ground (
    arith,
    all j w (lookup-head j w m),
    tally_all p m h (λ k v e. all k v (tail-lookup j k w v m fresh e)),
  )

  pub length-insert_absent :
      (k : K) (v : V) (m : Map K V) → lookup k m ≡ none → length (insert k v m) ≡ suc (length m)
  unfolding insert
  length-insert_absent k v m e = rw (delete_absent k m e)

  pub length-le-insert : (k : K) (v : V) (m : Map K V) → IsMap m → length m ≤ length (insert k v m)
  unfolding insert
  length-le-insert k v m h = elim (Option-cases (lookup k m)) [
    | inl e ↦ rw (delete_absent k m e) (omega arith)
    | inr (w, e) ↦ omega (arith, length-delete k w m h e)
  ]

  -- An entry after a write is the new one or an old one.
  pub lookup-insert_cases :
      (k j : K) (v w : V) (m : Map K V)
      → lookup j (insert k v m) ≡ some w
      → ((k ≡ j) × (w ≡ v)) ⊎ (lookup j m ≡ some w)
  lookup-insert_cases k j v w m e = ground (arith, lookup-insert k j v m)
