-- ===== src/AuthLimit/Sources/Bounds.antt =====
-- The table of sources stays within its size.
use ntwire.Base.{
  length-insert_absent, ℕ, suc, ◌+◌, ◌≤◌, ◌<◌, ◌≡◌, refl, ◌≢◌, ◌⊎◌, none, [], arith, length, lookup,
  length-insert-le,
}
use ntwire.AuthLimit.Sources.{
  string_discrete, ◌∷◌, Map, String, SourceState, SourceLimiter, drop_elapsed, evict_to, target,
  sweep, make_room, allow, counted,
}

-- No source's window has elapsed.
abbrev pub AllCurrent : ℕ → ℕ → Map String SourceState → Type 0
AllCurrent now window [] = Unit
AllCurrent now window ((k, s) ∷ m) = (now ≤ s.since + window) × AllCurrent now window m

drop_elapsed_of_AllCurrent :
    (now window : ℕ) (m : Map String SourceState)
    → AllCurrent now window m
    → drop_elapsed now window m ≡ m
unfolding drop_elapsed
drop_elapsed_of_AllCurrent now window [] h = refl
drop_elapsed_of_AllCurrent now window ((k, s) ∷ m) (c, h) =
    ground (arith, drop_elapsed_of_AllCurrent now window m h)

pub evict_to_of_le : (n : ℕ) (m : Map String SourceState) → length m ≤ n → evict_to n m ≡ m
unfolding evict_to
evict_to_of_le n [] h = refl
evict_to_of_le n (e ∷ m) h = ground arith

length-evict_to : (n : ℕ) (m : Map String SourceState) → length (evict_to n m) ≤ n
unfolding evict_to
length-evict_to n [] = omega arith
length-evict_to n (e ∷ m) = ground (arith, length-evict_to n m)

pub length-sweep : (now : ℕ) (l : SourceLimiter) → length (sweep now l).sources ≤ target l
unfolding sweep
length-sweep now l = length-evict_to (target l) _

-- A sweep leaves at most nine tenths of the size, rounded up, whether or not the table was full.
length-make_room :
    (now : ℕ) (l : SourceLimiter)
    → length l.sources ≤ suc l.max
    → (length (make_room now l).sources ≤ target l) ⊎ (length (make_room now l).sources < l.max)
length-make_room now l h = ground (arith, length-sweep now l)

-- With a size of ten or more, a call on a table that holds no more sources than its size leaves
-- one that holds no more.
pub allow-size :
    (now : ℕ) (source : String) (l : SourceLimiter)
    → 10 ≤ l.max
    → length l.sources ≤ l.max
    → length (allow now source l).0.sources ≤ l.max
unfolding allow
allow-size now source l big h = ground (
  arith,
  length-make_room now l,
  length-insert-le string_discrete source
      (counted now l.window (lookup string_discrete source (make_room now l).sources))
      (make_room now l).sources,
)

full_make_room :
    (now : ℕ) (l : SourceLimiter)
    → l.max < 10
    → length l.sources ≡ l.max
    → AllCurrent now l.window l.sources
    → (make_room now l).sources ≡ l.sources
unfolding sweep
full_make_room now l small full current = ground (
  arith,
  drop_elapsed_of_AllCurrent now l.window l.sources current,
  evict_to_of_le (target l) l.sources (omega arith),
)

-- With a size from one to nine a full table of sources that are all within their window takes one
-- more: `max - max/10` is `max` there, so the sweep makes no room.
pub allow_exceeds_small_size :
    (now : ℕ) (source : String) (l : SourceLimiter)
    → l.limit ≢ 0
    → l.max < 10
    → length l.sources ≡ l.max
    → AllCurrent now l.window l.sources
    → lookup string_discrete source l.sources ≡ none
    → length (allow now source l).0.sources ≡ suc l.max
unfolding allow
allow_exceeds_small_size now source l on small full current fresh = ground (
  arith,
  full_make_room now l small full current,
  length-insert_absent string_discrete source
      (counted now l.window (lookup string_discrete source (make_room now l).sources))
      (make_room now l).sources,
)
