-- ===== src/AuthLimit/Nonces/Replay.antt =====
-- A nonce that was accepted is refused for the whole of its window.
use ntwire.Base.{
  tally-insert-le, lookup-insert, ap, inr, suc, inl, delete, tally-delete-le, ◌∷◌, [],
  lookup-delete, tally_all, ◌<◌, arith, tally, IsMap, ℕ, ◌≢◌, dec_le, ◌+◌, ◌≤◌, ◌≡◌, refl,
}
use ntwire.AuthLimit.Nonces.{
  length, true, List, false, none, leb, some, string_discrete, Option, lookup, Map, String, Bool,
  NonceCache, older, sweep_from, evict_oldest, sweep, make_room, use_nonce,
}
use ntwire.AuthLimit.Nonces.Bounds.{
  IsBounded, swept, IsLeast, IsNoted, swept-IsMap, swept-IsNoted, swept-IsLeast, lookup-sweep_from,
  use_nonce-cases, use_nonce-IsBounded,
}

tally-sweep_from-le :
    (p : ℕ → Bool) (now ttl : ℕ) (m seen : Map String ℕ) (o : Option (String × ℕ))
    → tally p (sweep_from now ttl m seen o).0 ≤ tally p seen
unfolding sweep_from
tally-sweep_from-le p now ttl [] seen o = omega arith
tally-sweep_from-le p now ttl ((j, at) ∷ m) seen o = ground (
  arith,
  tally-delete-le string_discrete p j seen,
  tally-sweep_from-le p now ttl m (delete string_discrete j seen) o,
  tally-sweep_from-le p now ttl m seen (older j at o),
)

-- With fewer entries from time t on than the size, the oldest survivor is older than t.
evict_oldest-keeps :
    (max t : ℕ) (n : String) (seen : Map String ℕ) (o : Option (String × ℕ))
    → IsMap string_discrete seen
    → IsNoted o seen
    → ((k : String) (at : ℕ) → lookup string_discrete k seen ≡ some at → IsLeast o at)
    → tally (leb t) seen < max
    → lookup string_discrete n seen ≡ some t
    → lookup string_discrete n (evict_oldest max (seen, o)) ≡ some t
unfolding evict_oldest
evict_oldest-keeps max t n seen none h noted least few e = e
evict_oldest-keeps max t n seen (some (k, at)) h noted least few e = elim (string_discrete k n) [
  | yes p ↦
      let same : at ≡ t = ground arith in
      ground
        (arith, tally_all string_discrete (leb t) seen h (λ j b f. ground (arith, least j b f)))
  | no p ↦ ground (arith, lookup-delete string_discrete k n seen)
]

tally-evict_oldest-le :
    (p : ℕ → Bool) (max : ℕ) (seen : Map String ℕ) (o : Option (String × ℕ))
    → tally p (evict_oldest max (seen, o)) ≤ tally p seen
unfolding evict_oldest
tally-evict_oldest-le p max seen none = omega arith
tally-evict_oldest-le p max seen (some (k, at)) =
    ground (arith, tally-delete-le string_discrete p k seen)

pub use_nonce-recent :
    (now t : ℕ) (n : String) (c : NonceCache)
    → lookup string_discrete n c.seen ≡ some t
    → now ≤ t + c.ttl
    → use_nonce now n c ≡ (c, false)
unfolding use_nonce
use_nonce-recent now t n c e inside = ground arith

use_nonce-unnamed :
    (now : ℕ) (n : String) (c : NonceCache) → n ≡ "" → use_nonce now n c ≡ (c, false)
unfolding use_nonce
use_nonce-unnamed now n c e = ground arith

-- An accepted nonce is named, and is not held from within its ttl.
pub accepted-unseen :
    (now : ℕ) (n : String) (c : NonceCache)
    → (use_nonce now n c).1 ≡ true
    → (n ≢ "") × ((t : ℕ) → lookup string_discrete n c.seen ≡ some t → t + c.ttl < now)
accepted-unseen now n c h = (
  λ e. absurd (grind (arith, h, use_nonce-unnamed now n c e)),
  λ t e. elim (dec_le now (t + c.ttl)) [
    | yes inside ↦ absurd (grind (arith, h, use_nonce-recent now t n c e inside))
    | no late ↦ omega (arith, late)
  ],
)

use_nonce-config :
    (now : ℕ) (n : String) (c : NonceCache)
    → ((use_nonce now n c).0.ttl ≡ c.ttl) × ((use_nonce now n c).0.max ≡ c.max)
use_nonce-config now n c = elim (use_nonce-cases now n c) [
  | inl e ↦ rw e (refl, refl)
  | inr e ↦ rw e (refl, refl)
]

-- Calls one after another, each with the clock's reading.
unfoldable pub present : NonceCache → List (ℕ × String) → NonceCache
present c [] = c
present c ((now, n) ∷ calls) = present (use_nonce now n c).0 calls

abbrev pub AllBy : ℕ → List (ℕ × String) → Type 0
AllBy limit [] = Unit
AllBy limit ((now, n) ∷ calls) = (now ≤ limit) × AllBy limit calls

module _ (now t : ℕ) (n : String) (c : NonceCache) (b : IsBounded c) (inside : now ≤ t + c.ttl)
    (e : lookup string_discrete n c.seen ≡ some t) (few : tally (leb t) c.seen < c.max) where
  sweep-keeps : lookup string_discrete n (sweep now c).seen ≡ some t
  unfolding sweep
  sweep-keeps =
      evict_oldest-keeps c.max t n (swept now c).0 (swept now c).1 (swept-IsMap now c b.keys)
        (swept-IsNoted now c b.keys) (swept-IsLeast now c b.keys)
        (omega (arith, tally-sweep_from-le (leb t) now c.ttl c.seen c.seen none))
        (ground (arith, lookup-sweep_from now c.ttl n c.seen c.seen none b.keys))

  sweep-tally : tally (leb t) (sweep now c).seen ≤ tally (leb t) c.seen
  unfolding sweep
  sweep-tally = omega (
    arith,
    tally-evict_oldest-le (leb t) c.max (swept now c).0 (swept now c).1,
    tally-sweep_from-le (leb t) now c.ttl c.seen c.seen none,
  )

  make_room-keeps : lookup string_discrete n (make_room now c).seen ≡ some t
  make_room-keeps = ground (arith, sweep-keeps)

  make_room-tally : tally (leb t) (make_room now c).seen ≤ tally (leb t) c.seen
  make_room-tally = ground (arith, sweep-tally)

  -- A further call keeps the entry, and adds at most one to those from its time on.
  use_nonce-keeps :
      (m : String)
      → (lookup string_discrete n (use_nonce now m c).0.seen ≡ some t)
        × (tally (leb t) (use_nonce now m c).0.seen ≤ suc (tally (leb t) c.seen))
  use_nonce-keeps m = elim (string_discrete m n) [
    | yes p ↦ rw (refused m p) (e, omega arith)
    | no p ↦ elim (use_nonce-cases now m c) [
      | inl f ↦ rw f (e, omega arith)
      | inr f ↦ rw f (
        ground
            (arith, lookup-insert string_discrete m n now (make_room now c).seen, make_room-keeps),
        omega (
          arith,
          tally-insert-le string_discrete (leb t) m now (make_room now c).seen,
          make_room-tally,
        ),
      )
    ]
  ]
    where
      refused : (m : String) → m ≡ n → use_nonce now m c ≡ (c, false)
      refused m p = use_nonce-recent now t m c (rw p e) inside

pub accepted-recorded :
    (t : ℕ) (n : String) (c : NonceCache)
    → (use_nonce t n c).1 ≡ true
    → lookup string_discrete n (use_nonce t n c).0.seen ≡ some t
accepted-recorded t n c h = elim (use_nonce-cases t n c) [
  | inl e ↦ absurd (ground arith)
  | inr e ↦ rw e (ground (arith, lookup-insert string_discrete n n t (make_room t c).seen))
]

present-refuses :
    (calls : List (ℕ × String)) (now t : ℕ) (n : String) (c : NonceCache)
    → IsBounded c
    → lookup string_discrete n c.seen ≡ some t
    → AllBy (t + c.ttl) calls
    → tally (leb t) c.seen + length calls ≤ c.max
    → now ≤ t + c.ttl
    → (use_nonce now n (present c calls)).1 ≡ false
unfolding present
present-refuses [] now t n c b e by few inside = ap (λ r. r.1) (use_nonce-recent now t n c e inside)
present-refuses ((at, m) ∷ calls) now t n c b e (first, by) few inside =
    let (kept, more) = use_nonce-keeps at t n c b first e (omega arith) m in
    let (ttl, max) = use_nonce-config at m c in
    present-refuses calls now t n (use_nonce at m c).0 (use_nonce-IsBounded at m c b) kept
      (rw ttl by) (omega arith) (omega arith)

-- A nonce once accepted at time t stays recorded, and is refused, at every later time within the
-- ttl, whatever nonces were presented in between: provided that those entries recorded from t on
-- and the calls in between number at most the cache's size. (Beyond that number the cache evicts.)
pub replay_refused :
    (t now : ℕ) (n : String) (c : NonceCache) (calls : List (ℕ × String))
    → IsBounded c
    → (use_nonce t n c).1 ≡ true
    → AllBy (t + c.ttl) calls
    → tally (leb t) (use_nonce t n c).0.seen + length calls ≤ c.max
    → now ≤ t + c.ttl
    → (use_nonce now n (present (use_nonce t n c).0 calls)).1 ≡ false
replay_refused t now n c calls b accepted by few inside =
    let (ttl, max) = use_nonce-config t n c in
    present-refuses calls now t n (use_nonce t n c).0 (use_nonce-IsBounded t n c b)
      (accepted-recorded t n c accepted) (rw ttl by) (omega arith) (omega arith)
