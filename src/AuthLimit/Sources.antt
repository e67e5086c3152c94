-- ===== src/AuthLimit/Sources.antt =====
-- `SourceLimiter` of pkg/authlimit/authlimit.go, with the clock's reading as an argument. The zero
-- time is 0, and `now.Sub(since) > window` is written `since + window < now`. The count of a source
-- is not wrapped: an `int` holds more calls than one window has nanoseconds.
pub mod Bounds
pub mod Limits
use ntwire.Base.{
  ℕ, zero, suc, ◌+◌, ◌-◌, ◌*◌, ◌/◌, ◌%◌, ◌^◌, ◌≤◌, ◌<◌, String, ◌≡◌, refl, sym, ap, subst, ◌∙◌, ◌≢◌,
  ◌↔◌, ◌⊎◌, inl, inr, ite, Bool, true, false, not, ◌&&◌, ◌||◌, Option, none, some, List, [], ◌∷◌,
  ◌++◌, map, arith, dec_lt, dec_le, ℕ_discrete, length, take, drop, length-append, take-append-drop,
  length-take, length-drop, take-length-append, drop-length-append, count, count-append, bit, Map,
  tally, lookup, delete, insert, lookup-delete, lookup-insert, get_or, has, IsMap, delete-IsMap,
  insert-IsMap, delete_absent, tally-delete, length-delete, tally-insert_absent,
  tally-insert_present, bit-has-le, lookup-head, tally-delete-le, length-delete-le,
  length-insert-le, tally-insert-le, tally_all, ltb, leb, ◌==◌, if◌then◌else◌, Bool-cases,
  Option-cases, string_discrete, test,
}

pub record SourceState : Type 0 where
  pub n : ℕ
  pub since : ℕ

pub record SourceLimiter : Type 0 where
  pub limit : ℕ
  pub window : ℕ
  pub max : ℕ
  pub sources : Map String SourceState
  pub sweep_at : ℕ

abbrev pub default_max_sources : ℕ
default_max_sources = 65536

abbrev pub minute : ℕ
minute = 60 * 1000000000

-- A window or a size below 1 falls back; a limit below 1 is 0 here.
unfoldable pub new_source_limiter : ℕ → ℕ → ℕ → SourceLimiter
new_source_limiter limit window max = record {
  limit = limit;
  window = if window == 0 then minute else window;
  max = if max == 0 then default_max_sources else max;
  sources = [];
  sweep_at = 0;
}

abbrev pub has_elapsed : ℕ → ℕ → SourceState → Bool
has_elapsed now window s = ltb (s.since + window) now

-- the first loop of `sweepLocked`
unfoldable pub drop_elapsed : ℕ → ℕ → Map String SourceState → Map String SourceState
drop_elapsed now window [] = []
drop_elapsed now window ((k, s) ∷ m) =
    let rest = drop_elapsed now window m in if has_elapsed now window s then rest else (k, s) ∷ rest

-- the second loop: entries go, in the map's order, until `target` are left
unfoldable pub evict_to : ℕ → Map String SourceState → Map String SourceState
evict_to target [] = []
evict_to target (e ∷ m) =
    let rest = evict_to target m in if leb (length (e ∷ m)) target then e ∷ m else rest

abbrev pub target : SourceLimiter → ℕ
target l = l.max - l.max / 10

unfoldable pub sweep : ℕ → SourceLimiter → SourceLimiter
unfolding drop_elapsed evict_to
sweep now l = record l { sources = evict_to (target l) (drop_elapsed now l.window l.sources) }

-- At most one sweep per window, plus one at capacity.
abbrev pub make_room : ℕ → SourceLimiter → SourceLimiter
make_room now l =
    if ltb l.sweep_at now || leb l.max (length l.sources)
    then record (sweep now l) { sweep_at = now + l.window }
    else l

-- the count of the source after this call
unfoldable pub counted : ℕ → ℕ → Option SourceState → SourceState
counted now window none = record { n = 1; since = now }
counted now window (some s) =
    if has_elapsed now window s then record { n = 1; since = now } else record s { n = s.n + 1 }

-- A first call in a window may always proceed.
unfoldable pub admits : ℕ → ℕ → ℕ → Option SourceState → Bool
admits limit now window none = true
admits limit now window (some s) = has_elapsed now window s || leb (s.n + 1) limit

unfoldable pub allow : ℕ → String → SourceLimiter → SourceLimiter × Bool
unfolding counted admits
allow now source l =
    if l.limit == 0
    then (l, true)
    else let r = make_room now l in
      let s = lookup string_discrete source r.sources in
      (
        record r { sources = insert string_discrete source (counted now l.window s) r.sources },
        admits l.limit now l.window s,
      )
