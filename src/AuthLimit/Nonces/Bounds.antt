-- ===== src/AuthLimit/Nonces/Bounds.antt =====
-- The cache stays within its size.
use ntwire.Base.{
  length-insert-le, insert-IsMap, ◌⊎◌, length-delete, length-delete-le, ◌<◌, lookup-head, subst,
  inr, delete-IsMap, inl, lookup-delete, Bool-cases, none, delete, ◌∷◌, if◌then◌else◌, [], length,
  string_discrete, IsMap, lookup, arith, ℕ, ◌+◌, ◌≤◌, ◌≡◌, refl,
}
use ntwire.AuthLimit.Nonces.{
  true, recorded, false, ltb, Bool, some, Option, Map, String, NonceCache, older, sweep_from,
  evict_oldest, sweep, make_room, use_nonce, new_nonce_cache,
}

-- Each nonce once, and at most `max` of them.
pub record IsBounded (c : NonceCache) : Type 0 where
  pub keys : IsMap string_discrete c.seen
  pub size : length c.seen ≤ c.max
  pub room : 1 ≤ c.max

pub new_nonce_cache-IsBounded : (ttl max : ℕ) → IsBounded (new_nonce_cache ttl max)
unfolding new_nonce_cache
new_nonce_cache-IsBounded ttl max = ground arith

-- What the loop of a sweep leaves: an entry goes exactly if it is expired, and the survivor that is
-- noted stands in the map with the least time.
pub sweep_from-IsMap :
    (now ttl : ℕ) (m seen : Map String ℕ) (o : Option (String × ℕ))
    → IsMap string_discrete seen
    → IsMap string_discrete (sweep_from now ttl m seen o).0
unfolding sweep_from
sweep_from-IsMap now ttl [] seen o h = h
sweep_from-IsMap now ttl ((k, at) ∷ m) seen o h = ground (
  arith,
  sweep_from-IsMap now ttl m (delete string_discrete k seen) o,
  sweep_from-IsMap now ttl m seen (older k at o),
  delete-IsMap string_discrete k seen h,
)

abbrev pub expired_in : ℕ → ℕ → String → Map String ℕ → Bool
expired_in now ttl k m = elim (lookup string_discrete k m) [
  | none ↦ false
  | some at ↦ ltb (at + ttl) now
]

pub lookup-sweep_from :
    (now ttl : ℕ) (k : String) (m seen : Map String ℕ) (o : Option (String × ℕ))
    → IsMap string_discrete m
    → lookup string_discrete k (sweep_from now ttl m seen o).0
      ≡ (if expired_in now ttl k m then none else lookup string_discrete k seen)
unfolding sweep_from lookup
lookup-sweep_from now ttl k [] seen o h = refl
lookup-sweep_from now ttl k ((j, at) ∷ m) seen o (fresh, h) = ground (
  arith,
  lookup-sweep_from now ttl k m (delete string_discrete j seen) o h,
  lookup-sweep_from now ttl k m seen (older j at o) h,
  lookup-delete string_discrete j k seen,
)

-- No survivor is older than the one that is noted.
abbrev pub IsLeast : Option (String × ℕ) → ℕ → Type 0
IsLeast none at = ⊥
IsLeast (some (k, least)) at = least ≤ at

older-IsLeast :
    (k : String) (at b : ℕ) (o : Option (String × ℕ)) → IsLeast o b → IsLeast (older k at o) b
older-IsLeast k at b none h = absurd h
older-IsLeast k at b (some (j, l)) h = ground arith

sweep_from-IsLeast_start :
    (now ttl b : ℕ) (m seen : Map String ℕ) (o : Option (String × ℕ))
    → IsLeast o b
    → IsLeast (sweep_from now ttl m seen o).1 b
unfolding sweep_from
sweep_from-IsLeast_start now ttl b [] seen o h = h
sweep_from-IsLeast_start now ttl b ((k, at) ∷ m) seen o h = elim (Bool-cases (ltb (at + ttl) now)) [
  | inl e ↦ rw (e, sweep_from) (sweep_from-IsLeast_start now ttl b m _ o h)
  | inr e ↦
      rw (e, sweep_from)
        (sweep_from-IsLeast_start now ttl b m _ (older k at o) (older-IsLeast k at b o h))
]

older-IsLeast_self : (k : String) (at : ℕ) (o : Option (String × ℕ)) → IsLeast (older k at o) at
older-IsLeast_self k at none = omega arith
older-IsLeast_self k at (some (j, l)) = ground arith

noted_at :
    (now ttl at : ℕ) (j : String) (o : Option (String × ℕ))
    → ltb (at + ttl) now ≡ false
    → IsLeast (if ltb (at + ttl) now then o else older j at o) at
noted_at now ttl at j o f = rw f (older-IsLeast_self j at o)

pub sweep_from-IsLeast :
    (now ttl : ℕ) (k : String) (b : ℕ) (m seen : Map String ℕ) (o : Option (String × ℕ))
    → lookup string_discrete k m ≡ some b
    → ltb (b + ttl) now ≡ false
    → IsLeast (sweep_from now ttl m seen o).1 b
unfolding sweep_from lookup
sweep_from-IsLeast now ttl k b [] seen o e f = absurd (ground arith)
sweep_from-IsLeast now ttl k b ((j, at) ∷ m) seen o e f = elim (string_discrete j k) [
  | yes p ↦
      let q : at ≡ b = ground arith in
      sweep_from-IsLeast_start now ttl b m _ _ (
        subst (λ x. IsLeast (if ltb (at + ttl) now then o else older j at o) x) q
          (noted_at now ttl at j o (rw q f)))
  | no p ↦ sweep_from-IsLeast now ttl k b m _ _ (ground arith) f
]

-- The noted survivor is one of the entries that stay.
abbrev pub IsNoted : Option (String × ℕ) → Map String ℕ → Type 0
IsNoted none seen = Unit
IsNoted (some (k, at)) seen = lookup string_discrete k seen ≡ some at

abbrev Avoids : Option (String × ℕ) → Map String ℕ → Type 0
Avoids none m = Unit
Avoids (some (k, at)) m = lookup string_discrete k m ≡ none

abbrev Within : Map String ℕ → Map String ℕ → Type 0
Within m seen =
    (k : String) (at : ℕ)
    → lookup string_discrete k m ≡ some at
    → lookup string_discrete k seen ≡ some at

Avoids-tail :
    (j : String) (at : ℕ) (m : Map String ℕ) (o : Option (String × ℕ))
    → Avoids o ((j, at) ∷ m)
    → Avoids o m
unfolding lookup
Avoids-tail j at m none h = tt
Avoids-tail j at m (some (k, b)) h = ground arith

IsNoted-delete :
    (j : String) (at : ℕ) (m seen : Map String ℕ) (o : Option (String × ℕ))
    → Avoids o ((j, at) ∷ m)
    → IsNoted o seen
    → IsNoted o (delete string_discrete j seen)
unfolding lookup
IsNoted-delete j at m seen none a h = tt
IsNoted-delete j at m seen (some (k, b)) a h =
    ground (arith, lookup-delete string_discrete j k seen)

Within-tail :
    (j : String) (at : ℕ) (m seen : Map String ℕ)
    → lookup string_discrete j m ≡ none
    → Within ((j, at) ∷ m) seen
    → Within m seen
unfolding lookup
Within-tail j at m seen fresh w k b e = ground (arith, w k b)

Within-delete :
    (j : String) (at : ℕ) (m seen : Map String ℕ)
    → lookup string_discrete j m ≡ none
    → Within ((j, at) ∷ m) seen
    → Within m (delete string_discrete j seen)
unfolding lookup
Within-delete j at m seen fresh w k b e =
    ground (arith, w k b, lookup-delete string_discrete j k seen)

Avoids-older :
    (j : String) (at : ℕ) (m : Map String ℕ) (o : Option (String × ℕ))
    → lookup string_discrete j m ≡ none
    → Avoids o ((j, at) ∷ m)
    → Avoids (older j at o) m
unfolding lookup
Avoids-older j at m none fresh h = fresh
Avoids-older j at m (some (k, b)) fresh h = ground arith

IsNoted-older :
    (j : String) (at : ℕ) (seen : Map String ℕ) (o : Option (String × ℕ))
    → lookup string_discrete j seen ≡ some at
    → IsNoted o seen
    → IsNoted (older j at o) seen
IsNoted-older j at seen none e h = e
IsNoted-older j at seen (some (k, b)) e h = ground arith

sweep_from-IsNoted :
    (now ttl : ℕ) (m seen : Map String ℕ) (o : Option (String × ℕ))
    → IsMap string_discrete m
    → Within m seen
    → Avoids o m
    → IsNoted o seen
    → IsNoted (sweep_from now ttl m seen o).1 (sweep_from now ttl m seen o).0
unfolding sweep_from
sweep_from-IsNoted now ttl [] seen o h w a n = n
sweep_from-IsNoted now ttl ((j, at) ∷ m) seen o (fresh, h) w a n =
    elim (Bool-cases (ltb (at + ttl) now)) [
      | inl e ↦
          rw (e, sweep_from)
            (sweep_from-IsNoted now ttl m (delete string_discrete j seen) o h
              (Within-delete j at m seen fresh w) (Avoids-tail j at m o a)
              (IsNoted-delete j at m seen o a n))
      | inr e ↦
          rw (e, sweep_from)
            (sweep_from-IsNoted now ttl m seen (older j at o) h (Within-tail j at m seen fresh w)
              (Avoids-older j at m o fresh a)
              (IsNoted-older j at seen o (w j at (lookup-head string_discrete j at m)) n))
    ]

-- The map and the survivor that the loop of a sweep ends with.
abbrev pub swept : ℕ → NonceCache → Map String ℕ × Option (String × ℕ)
swept now c = sweep_from now c.ttl c.seen c.seen none

module _ (now : ℕ) (c : NonceCache) (h : IsMap string_discrete c.seen) where
  pub swept-IsMap : IsMap string_discrete (swept now c).0
  swept-IsMap = sweep_from-IsMap now c.ttl c.seen c.seen none h

  pub swept-IsNoted : IsNoted (swept now c).1 (swept now c).0
  swept-IsNoted = sweep_from-IsNoted now c.ttl c.seen c.seen none h (λ k at e. e) tt tt

  pub swept-IsLeast :
      (k : String) (at : ℕ)
      → lookup string_discrete k (swept now c).0 ≡ some at
      → IsLeast (swept now c).1 at
  swept-IsLeast k at e =
      sweep_from-IsLeast now c.ttl k at c.seen c.seen none
        (ground (arith, lookup-sweep_from now c.ttl k c.seen c.seen none h))
        (ground (arith, lookup-sweep_from now c.ttl k c.seen c.seen none h))

empty_of_unnoted :
    (seen : Map String ℕ) (o : Option (String × ℕ))
    → ((k : String) (at : ℕ) → lookup string_discrete k seen ≡ some at → IsLeast o at)
    → o ≡ none
    → seen ≡ []
empty_of_unnoted [] o least e = refl
empty_of_unnoted ((k, at) ∷ m) o least e =
    absurd (subst (λ x. IsLeast x at) e (least k at (lookup-head string_discrete k at m)))

length-sweep_from-le :
    (now ttl : ℕ) (m seen : Map String ℕ) (o : Option (String × ℕ))
    → length (sweep_from now ttl m seen o).0 ≤ length seen
unfolding sweep_from
length-sweep_from-le now ttl [] seen o = omega arith
length-sweep_from-le now ttl ((j, at) ∷ m) seen o = ground (
  arith,
  length-delete-le string_discrete j seen,
  length-sweep_from-le now ttl m (delete string_discrete j seen) o,
  length-sweep_from-le now ttl m seen (older j at o),
)

length-evict_oldest :
    (max : ℕ) (seen : Map String ℕ) (o : Option (String × ℕ))
    → IsMap string_discrete seen
    → IsNoted o seen
    → ((k : String) (at : ℕ) → lookup string_discrete k seen ≡ some at → IsLeast o at)
    → length seen ≤ max
    → 1 ≤ max
    → length (evict_oldest max (seen, o)) < max
unfolding evict_oldest
length-evict_oldest max seen none h n least small room =
    rw (empty_of_unnoted seen none least refl) room
length-evict_oldest max seen (some (k, at)) h n least small room =
    ground (arith, length-delete string_discrete k at seen h n)

evict_oldest-IsMap :
    (max : ℕ) (seen : Map String ℕ) (o : Option (String × ℕ))
    → IsMap string_discrete seen
    → IsMap string_discrete (evict_oldest max (seen, o))
unfolding evict_oldest
evict_oldest-IsMap max seen none h = h
evict_oldest-IsMap max seen (some (k, at)) h = ground (arith, delete-IsMap string_discrete k seen h)

-- A sweep at capacity makes room for one more.
pub length-sweep-lt : (now : ℕ) (c : NonceCache) → IsBounded c → length (sweep now c).seen < c.max
unfolding sweep
length-sweep-lt now c b =
    length-evict_oldest c.max (swept now c).0 (swept now c).1 (swept-IsMap now c b.keys)
      (swept-IsNoted now c b.keys) (swept-IsLeast now c b.keys)
      (omega (arith, length-sweep_from-le now c.ttl c.seen c.seen none, b.size)) b.room

sweep-IsMap :
    (now : ℕ) (c : NonceCache)
    → IsMap string_discrete c.seen
    → IsMap string_discrete (sweep now c).seen
unfolding sweep
sweep-IsMap now c h = evict_oldest-IsMap c.max (swept now c).0 (swept now c).1 (swept-IsMap now c h)

make_room-fits : (now : ℕ) (c : NonceCache) → IsBounded c → length (make_room now c).seen < c.max
make_room-fits now c b = ground (arith, length-sweep-lt now c b)

make_room-IsMap :
    (now : ℕ) (c : NonceCache)
    → IsMap string_discrete c.seen
    → IsMap string_discrete (make_room now c).seen
make_room-IsMap now c h = ground (arith, sweep-IsMap now c h)

pub recorded-IsBounded :
    (now : ℕ) (n : String) (c : NonceCache) → IsBounded c → IsBounded (recorded now n c)
recorded-IsBounded now n c b = record {
  keys = insert-IsMap string_discrete n now (make_room now c).seen (make_room-IsMap now c b.keys);
  size = omega (
    arith,
    length-insert-le string_discrete n now (make_room now c).seen,
    make_room-fits now c b,
  );
  room = b.room;
}

-- A call either refuses the nonce and changes nothing, or records it.
pub use_nonce-cases :
    (now : ℕ) (n : String) (c : NonceCache)
    → (use_nonce now n c ≡ (c, false)) ⊎ (use_nonce now n c ≡ (recorded now n c, true))
unfolding use_nonce
use_nonce-cases now n c = ground arith

-- From a bounded cache, whatever nonce is presented, the cache holds each at most once and never more than its size.
pub use_nonce-IsBounded :
    (now : ℕ) (n : String) (c : NonceCache) → IsBounded c → IsBounded (use_nonce now n c).0
use_nonce-IsBounded now n c b = elim (use_nonce-cases now n c) [
  | inl e ↦ rw e b
  | inr e ↦ rw e (recorded-IsBounded now n c b)
]
