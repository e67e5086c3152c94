-- ===== src/AuthLimit/Sources/Limits.antt =====
-- How often one source may act in its window.
use ntwire.Base.{
  min, ℕ, suc, ◌+◌, ◌-◌, ◌≤◌, String, ◌≡◌, refl, ◌≢◌, ◌&&◌, some, List, [], ◌∷◌, arith, length, bit,
  Map, lookup, lookup-insert, length-insert-le, leb, string_discrete, test,
}
use ntwire.AuthLimit.Sources.{
  SourceState, SourceLimiter, drop_elapsed, target, sweep, make_room, allow, counted, admits,
}
use ntwire.AuthLimit.Sources.Bounds.{evict_to_of_le}

lookup-drop_elapsed :
    (now window : ℕ) (k : String) (s : SourceState) (m : Map String SourceState)
    → lookup string_discrete k m ≡ some s
    → now ≤ s.since + window
    → lookup string_discrete k (drop_elapsed now window m) ≡ some s
unfolding drop_elapsed lookup
lookup-drop_elapsed now window k s [] e h = e
lookup-drop_elapsed now window k s ((j, r) ∷ m) e h =
    ground (arith, lookup-drop_elapsed now window k s m)

length-drop_elapsed-le :
    (now window : ℕ) (m : Map String SourceState) → length (drop_elapsed now window m) ≤ length m
unfolding drop_elapsed
length-drop_elapsed-le now window [] = omega arith
length-drop_elapsed-le now window ((j, r) ∷ m) = ground (arith, length-drop_elapsed-le now window m)

module _ (now : ℕ) (l : SourceLimiter) (roomy : length l.sources ≤ target l) where
  sweep_roomy : (sweep now l).sources ≡ drop_elapsed now l.window l.sources
  unfolding sweep
  sweep_roomy =
      evict_to_of_le (target l) _ (omega (arith, length-drop_elapsed-le now l.window l.sources))

  sweep_config :
      ((sweep now l).limit ≡ l.limit)
      × ((sweep now l).window ≡ l.window)
      × ((sweep now l).max ≡ l.max)
  unfolding sweep
  sweep_config = (refl, refl, refl)

  make_room-length : length (make_room now l).sources ≤ length l.sources
  make_room-length = ground (arith, sweep_roomy, length-drop_elapsed-le now l.window l.sources)

  make_room_config :
      ((make_room now l).limit ≡ l.limit)
      × ((make_room now l).window ≡ l.window)
      × ((make_room now l).max ≡ l.max)
  make_room_config = ground (arith, sweep_config)

  make_room-keeps :
      (k : String) (s : SourceState)
      → lookup string_discrete k l.sources ≡ some s
      → now ≤ s.since + l.window
      → lookup string_discrete k (make_room now l).sources ≡ some s
  make_room-keeps k s e h =
      ground (arith, sweep_roomy, lookup-drop_elapsed now l.window k s l.sources e h)

  allow_config :
      (who : String)
      → ((allow now who l).0.limit ≡ l.limit)
        × ((allow now who l).0.window ≡ l.window)
        × ((allow now who l).0.max ≡ l.max)
  unfolding allow
  allow_config who = ground (arith, make_room_config)

  allow-length : (who : String) → length (allow now who l).0.sources ≤ suc (length l.sources)
  unfolding allow
  allow-length who = ground (
    arith,
    make_room-length,
    length-insert-le string_discrete who
        (counted now l.window (lookup string_discrete who (make_room now l).sources))
        (make_room now l).sources,
  )

  -- A call while the source's window runs: its own calls count up to the limit.
  module _ (source : String) (s : SourceState) (on : l.limit ≢ 0)
      (e : lookup string_discrete source l.sources ≡ some s)
      (inside : now ≤ s.since + l.window) where
    allow_own :
        (lookup string_discrete source (allow now source l).0.sources
          ≡ some (record s { n = s.n + 1 }))
        × ((allow now source l).1 ≡ leb (s.n + 1) l.limit)
    unfolding allow counted admits
    allow_own = ground (
      arith,
      make_room-keeps source s e inside,
      lookup-insert string_discrete source source (record s { n = s.n + 1 })
          (make_room now l).sources,
    )

    allow_other :
        (who : String)
        → who ≢ source
        → lookup string_discrete source (allow now who l).0.sources ≡ some s
    unfolding allow
    allow_other who other = ground (
      arith,
      make_room-keeps source s e inside,
      lookup-insert string_discrete who source
          (counted now l.window (lookup string_discrete who (make_room now l).sources))
          (make_room now l).sources,
    )

-- The calls of a source among a sequence, and those of them that may proceed.
abbrev pub calls_by : String → List (ℕ × String) → ℕ
calls_by source [] = 0
calls_by source ((now, who) ∷ calls) =
    bit (test (string_discrete who source)) + calls_by source calls

unfoldable pub allowed : String → SourceLimiter → List (ℕ × String) → ℕ
allowed source l [] = 0
allowed source l ((now, who) ∷ calls) =
    bit (test (string_discrete who source) && (allow now who l).1)
    + allowed source (allow now who l).0 calls

abbrev pub AllBy : ℕ → List (ℕ × String) → Type 0
AllBy limit [] = Unit
AllBy limit ((now, who) ∷ calls) = (now ≤ limit) × AllBy limit calls

-- While a source's window runs and the table has room for every call, the source proceeds exactly
-- as often as it calls until its count reaches the limit, and then no more, whatever other sources
-- do in between.
pub allowed-eq :
    (calls : List (ℕ × String)) (source : String) (s : SourceState) (l : SourceLimiter)
    → l.limit ≢ 0
    → lookup string_discrete source l.sources ≡ some s
    → length l.sources + length calls ≤ target l
    → AllBy (s.since + l.window) calls
    → allowed source l calls ≡ min (calls_by source calls) (l.limit - s.n)
unfolding allowed
allowed-eq [] source s l on e room by = omega arith
allowed-eq ((now, who) ∷ calls) source s l on e room (first, by) =
    let roomy : length l.sources ≤ target l = omega arith in
    let (limit, window, max) = allow_config now l roomy who in
    let longer = allow-length now l roomy who in
    let bigger : length (allow now who l).0.sources + length calls ≤ target (allow now who l).0 =
      ground (arith) in
    let later : AllBy (s.since + (allow now who l).0.window) calls = rw window by in
    let still : (allow now who l).0.limit ≢ 0 = rw limit on in
    elim (string_discrete who source) [
      | yes p ↦
          let (kept, answer) = allow_own now l roomy source s on e first in
          let rest =
            allowed-eq calls source (record s { n = s.n + 1 }) (allow now who l).0 still (rw p kept)
              bigger later in
          ground arith
      | no p ↦
          let rest =
            allowed-eq calls source s (allow now who l).0 still
              (allow_other now l roomy source s on e first who p) bigger later in
          ground arith
    ]
