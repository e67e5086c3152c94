-- ===== src/Tests/Limiters.antt =====
-- Inputs for the limiters of pkg/authlimit.
use ntwire.Base.{
  ◌≡◌, refl, false, [], ◌∷◌, arith, length, tally, lookup, delete, insert, string_discrete,
}
use ntwire.AuthLimit.Nonces.{new_nonce_cache, use_nonce}
use ntwire.AuthLimit.Nonces.Bounds.{new_nonce_cache-IsBounded}
use ntwire.AuthLimit.Nonces.Replay.{replay_refused, present}
use ntwire.AuthLimit.Sources.{SourceLimiter, allow}
use ntwire.AuthLimit.Sources.Bounds.{allow_exceeds_small_size}
use ntwire.AuthLimit.Sources.Limits.{allowed-eq, allowed}

replay_refused_example :
    (use_nonce 9 "n" (present (use_nonce 7 "n" (new_nonce_cache 10 2)).0 ((8, "m") ∷ []))).1 ≡ false
unfolding use_nonce new_nonce_cache string_discrete lookup tally insert delete
replay_refused_example =
    replay_refused 7 9 "n" (new_nonce_cache 10 2) ((8, "m") ∷ []) (new_nonce_cache-IsBounded 10 2)
      refl (omega arith, tt) (omega arith) (omega arith)

abbrev limiter : SourceLimiter
limiter = record {
  limit = 3;
  window = 60;
  max = 10;
  sources = ("a", record { n = 1; since = 5 }) ∷ [];
  sweep_at = 70;
}

allowed-eq_example : allowed "a" limiter ((6, "a") ∷ (7, "b") ∷ (8, "a") ∷ (9, "a") ∷ []) ≡ 2
unfolding lookup string_discrete
allowed-eq_example =
    allowed-eq ((6, "a") ∷ (7, "b") ∷ (8, "a") ∷ (9, "a") ∷ []) "a" (record { n = 1; since = 5 })
      limiter (omega arith) refl (omega arith)
      (omega arith, (omega arith, (omega arith, (omega arith, tt))))

abbrev small : SourceLimiter
small = record {
  limit = 3;
  window = 60;
  max = 1;
  sources = ("a", record { n = 1; since = 5 }) ∷ [];
  sweep_at = 70;
}

allow_exceeds_small_size_example : length (allow 9 "b" small).0.sources ≡ 2
unfolding lookup string_discrete
allow_exceeds_small_size_example =
    allow_exceeds_small_size 9 "b" small (omega arith) (omega arith) refl (omega arith, tt) refl
