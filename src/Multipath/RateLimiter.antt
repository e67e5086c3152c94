-- ===== src/Multipath/RateLimiter.antt =====
-- `byteRateLimiter` of pkg/wstransport/multipath_options.go, the budget of duplicated bytes. Its tokens are
-- floats in bytes and its times are differences in seconds; here the tokens are in billionths of a byte,
-- which makes every step exact on nanoseconds.
use ntwire.Base.{
  ℕ, zero, suc, ◌+◌, ◌-◌, ◌*◌, ◌^◌, ◌≤◌, ◌<◌, ◌≡◌, sym, ap, subst, ◌∙◌, Bool, true, false, List, [],
  ◌∷◌, arith, ltb, ◌==◌, if◌then◌else◌,
}

pub record ByteRateLimiter : Type 0 where
  pub tokens : ℕ
  pub max_tokens : ℕ
  pub refill_rate : ℕ
  pub last : ℕ

abbrev pub default_duplicate_rate_bytes_per_sec : ℕ
default_duplicate_rate_bytes_per_sec = 262144

abbrev pub billion : ℕ
billion = 10 ^ 9

-- A rate that is not positive is 0 here.
unfoldable pub new_byte_rate_limiter : ℕ → ℕ → ByteRateLimiter
new_byte_rate_limiter bytes_per_second now =
    let rate =
      if bytes_per_second == 0 then default_duplicate_rate_bytes_per_sec else bytes_per_second in
    record { tokens = rate * billion; max_tokens = rate * billion; refill_rate = rate; last = now }

abbrev pub refilled : ℕ → ByteRateLimiter → ℕ
refilled now l =
    let tokens = l.tokens + (now - l.last) * l.refill_rate in
    if ltb l.max_tokens tokens then l.max_tokens else tokens

unfoldable pub allow : ℕ → ℕ → ByteRateLimiter → ByteRateLimiter × Bool
allow n now l =
    let tokens = refilled now l in
    if ltb tokens (n * billion)
    then (record l { tokens = tokens; last = now }, false)
    else (record l { tokens = tokens - n * billion; last = now }, true)

-- The bytes that calls allow, the oldest first.
abbrev pub granted : List (ℕ × ℕ) → ByteRateLimiter → ℕ
granted [] l = 0
granted ((n, now) ∷ calls) l = let r = allow n now l in (if r.1 then n else 0) + granted calls r.0

-- The times of the calls do not go back.
abbrev pub Ordered : ℕ → List (ℕ × ℕ) → Type 0
Ordered last [] = Unit
Ordered last ((n, now) ∷ calls) = (last ≤ now) × Ordered now calls

abbrev pub end_of : ℕ → List (ℕ × ℕ) → ℕ
end_of last [] = last
end_of last ((n, now) ∷ calls) = end_of now calls

end_of-le : (last : ℕ) (calls : List (ℕ × ℕ)) → Ordered last calls → last ≤ end_of last calls
end_of-le last [] h = omega arith
end_of-le last ((n, now) ∷ calls) (le, h) = omega (arith, le, end_of-le now calls h)

distrib : (a b c : ℕ) → (a + b) * c ≡ a * c + b * c
distrib zero b c = omega arith
distrib (suc a) b c = omega (arith, distrib a b c)

-- One call: what it allows is taken from the tokens, which gain no more than the time gives.
allow-budget :
    (n now : ℕ) (l : ByteRateLimiter)
    → (if (allow n now l).1 then n else 0) * billion + (allow n now l).0.tokens
      ≤ l.tokens + (now - l.last) * l.refill_rate
unfolding allow
allow-budget n now l = step ((now - l.last) * l.refill_rate)
  where
    step :
        (gain : ℕ)
        → let tokens =
            if ltb l.max_tokens (l.tokens + gain) then l.max_tokens else l.tokens + gain in
          let r : ByteRateLimiter × Bool =
            if ltb tokens (n * billion)
            then (record l { tokens = tokens; last = now }, false)
            else (record l { tokens = tokens - n * billion; last = now }, true) in
          (if r.1 then n else 0) * billion + r.0.tokens ≤ l.tokens + gain
    step gain = ground arith

allow-settings :
    (n now : ℕ) (l : ByteRateLimiter)
    → ((allow n now l).0.refill_rate ≡ l.refill_rate) × ((allow n now l).0.last ≡ now)
unfolding allow
allow-settings n now l = ground arith

granted-budget :
    (calls : List (ℕ × ℕ)) (l : ByteRateLimiter)
    → Ordered l.last calls
    → granted calls l * billion ≤ l.tokens + (end_of l.last calls - l.last) * l.refill_rate
granted-budget [] l h = omega arith
granted-budget ((n, now) ∷ calls) l (le, h) =
    let r = allow n now l in
    let (rate, last) = allow-settings n now l in
    let end = end_of now calls in
    let rest = granted-budget calls r.0 (subst (λ t. Ordered t calls) (sym last) h) in
    let at_now : granted calls r.0 * billion ≤ r.0.tokens + (end - now) * l.refill_rate =
      subst (λ k. granted calls r.0 * billion ≤ r.0.tokens + (end - now) * k) rate
        (subst
          (λ t. granted calls r.0 * billion ≤ r.0.tokens + (end_of t calls - t) * r.0.refill_rate)
          last rest) in
    let parts : end - l.last ≡ (now - l.last) + (end - now) =
      omega (arith, le, end_of-le now calls h) in
    let split =
      ap (λ d. d * l.refill_rate) parts ∙ distrib (now - l.last) (end - now) l.refill_rate in
    omega (arith, allow-budget n now l, at_now, split)

new-settings :
    (rate start : ℕ)
    → 0 < rate
    → ((new_byte_rate_limiter rate start).tokens ≡ rate * billion)
      × ((new_byte_rate_limiter rate start).refill_rate ≡ rate)
      × ((new_byte_rate_limiter rate start).last ≡ start)
unfolding new_byte_rate_limiter
new-settings rate start pos = ground arith

-- From a new limiter of a positive rate, the bytes that any calls allow are at most the rate for one
-- second and for the time from its making to the last call.
pub granted_within :
    (rate start : ℕ) (calls : List (ℕ × ℕ))
    → 0 < rate
    → Ordered start calls
    → granted calls (new_byte_rate_limiter rate start) * billion
      ≤ (billion + (end_of start calls - start)) * rate
granted_within rate start calls pos h =
    let l = new_byte_rate_limiter rate start in
    let (tokens, refill, last) : (l.tokens ≡ rate * billion)
        × (l.refill_rate ≡ rate)
        × (l.last ≡ start) =
      new-settings rate start pos in
    let bound = granted-budget calls l (subst (λ t. Ordered t calls) (sym last) h) in
    let total = distrib billion (end_of start calls - start) rate in
    let at_start : granted calls l * billion ≤ l.tokens + (end_of start calls - start) * rate =
      subst (λ k. granted calls l * billion ≤ l.tokens + (end_of start calls - start) * k) refill
        (subst (λ t. granted calls l * billion ≤ l.tokens + (end_of t calls - t) * l.refill_rate)
          last bound) in
    omega (arith, at_start, tokens, total)
