-- ===== src/AuthLimit/Nonces.antt =====
-- `NonceCache` of pkg/authlimit/authlimit.go. Times and durations are nanoseconds; the mutex makes
-- each call one step, and the clock's reading is its first argument. `now.Sub(at) > ttl` is written
-- `at + ttl < now`.
pub mod Bounds
pub mod Replay
use ntwire.Base.{
  ◌∷◌, [], true, insert, delete, false, length, [], leb, ◌==◌, string_discrete, test, ltb, none,
  lookup, if◌then◌else◌, some, ℕ, ◌+◌, ◌*◌, String, Bool, Option, List, Map,
}

pub record NonceCache : Type 0 where
  pub ttl : ℕ
  pub max : ℕ
  pub seen : Map String ℕ

abbrev pub default_max_nonces : ℕ
default_max_nonces = 4096

abbrev pub five_minutes : ℕ
five_minutes = 5 * 60 * 1000000000

-- Sizes and durations below 1 fall back.
unfoldable pub new_nonce_cache : ℕ → ℕ → NonceCache
new_nonce_cache ttl max = record {
  ttl = if ttl == 0 then five_minutes else ttl;
  max = if max == 0 then default_max_nonces else max;
  seen = [];
}

-- oldestKey, oldestAt and haveOldest after one more survivor
abbrev pub older : String → ℕ → Option (String × ℕ) → Option (String × ℕ)
older k at none = some (k, at)
older k at (some (j, least)) = if ltb at least then some (k, at) else some (j, least)

-- the loop of `sweepLocked` over the entries of the map
unfoldable pub sweep_from :
    ℕ → ℕ → Map String ℕ → Map String ℕ → Option (String × ℕ) → Map String ℕ × Option (String × ℕ)
sweep_from now ttl [] seen oldest = (seen, oldest)
sweep_from now ttl ((k, at) ∷ rest) seen oldest =
    let expired = ltb (at + ttl) now in
    sweep_from now ttl rest (if expired then delete string_discrete k seen else seen)
      (if expired then oldest else older k at oldest)

evict_oldest : ℕ → Map String ℕ × Option (String × ℕ) → Map String ℕ
evict_oldest max (seen, none) = seen
evict_oldest max (seen, some (k, at)) =
    if leb max (length seen) then delete string_discrete k seen else seen

unfoldable pub sweep : ℕ → NonceCache → NonceCache
unfolding sweep_from evict_oldest
sweep now c = record c { seen = evict_oldest c.max (sweep_from now c.ttl c.seen c.seen none) }

-- at, ok := c.seen[n]; ok && now.Sub(at) <= c.ttl
abbrev pub is_recent : ℕ → String → NonceCache → Bool
is_recent now n c = elim (lookup string_discrete n c.seen) [
  | none ↦ false
  | some at ↦ leb now (at + c.ttl)
]

-- A sweep runs only at capacity.
abbrev pub make_room : ℕ → NonceCache → NonceCache
make_room now c = if leb c.max (length c.seen) then sweep now c else c

-- c.seen[n] = now
abbrev pub recorded : ℕ → String → NonceCache → NonceCache
recorded now n c = record c { seen = insert string_discrete n now (make_room now c).seen }

unfoldable pub use_nonce : ℕ → String → NonceCache → NonceCache × Bool
use_nonce now n c =
    if test (string_discrete n "")
    then (c, false)
    else if is_recent now n c
    then (c, false)
    else (recorded now n c, true)
