-- ===== src/Relay/NativeWireguard/Fifo/Arrays.antt =====
-- The arrays of keys behind the bounded maps of pkg/relay/nativewg.go, `indexOrder` and `pairOrder`:
-- one element written over, and the elements read from there on.
use ntwire.Base.{
  ℕ, zero, suc, ◌+◌, ◌%◌, ◌<◌, ◌≡◌, refl, sym, ap, ◌∙◌, ite, List, [], ◌∷◌, ◌++◌, append_assoc,
  append-nil, arith, ℕ_discrete, length, take, drop, set, length-set, count,
}
use ntwire.Relay.NativeWireguard.{native_wg_max_indices, order_at}

-- 1 for the key itself
abbrev pub same : ℕ → ℕ → ℕ
same k j = ite (ℕ_discrete k j) 1 0

pub count-set :
    (j k i : ℕ) (ks : List ℕ)
    → i < length ks
    → count j (set ks i k) + same (order_at ks i) j ≡ count j ks + same k j
count-set j k i [] h = absurd (omega arith)
count-set j k zero (x ∷ ks) h = omega arith
count-set j k (suc i) (x ∷ ks) h = omega (arith, count-set j k i ks (omega arith))

pub count-order_at : (i : ℕ) (ks : List ℕ) → i < length ks → 0 < count (order_at ks i) ks
count-order_at i [] h = absurd (omega arith)
count-order_at zero (x ∷ ks) h = ground arith
count-order_at (suc i) (x ∷ ks) h = omega (arith, count-order_at i ks (omega arith))

drop_one :
    (i : ℕ) (ks rest : List ℕ)
    → i < length ks
    → drop 1 (drop i ks ++ rest) ≡ drop (suc i) ks ++ rest
drop_one i [] rest h = absurd (omega arith)
drop_one zero (x ∷ ks) rest h = refl
drop_one (suc i) (x ∷ ks) rest h = drop_one i ks rest (omega arith)

drop-set : (i k : ℕ) (ks : List ℕ) → drop (suc i) (set ks i k) ≡ drop (suc i) ks
drop-set i k [] = refl
drop-set zero k (x ∷ ks) = refl
drop-set (suc i) k (x ∷ ks) = drop-set i k ks

take-set :
    (i k : ℕ) (ks : List ℕ) → i < length ks → take (suc i) (set ks i k) ≡ take i ks ++ (k ∷ [])
take-set i k [] h = absurd (omega arith)
take-set zero k (x ∷ ks) h = refl
take-set (suc i) k (x ∷ ks) h = ap (◌∷◌ x) (take-set i k ks (omega arith))

drop_all : (ks : List ℕ) → drop (length ks) ks ≡ []
drop_all [] = refl
drop_all (x ∷ ks) = drop_all ks

take_all : (ks : List ℕ) → take (length ks) ks ≡ ks
take_all [] = refl
take_all (x ∷ ks) = ap (◌∷◌ x) (take_all ks)

-- The write goes round at the end of the array.
pub rotate-set :
    (i k n : ℕ) (ks : List ℕ)
    → i < native_wg_max_indices
    → length ks ≡ native_wg_max_indices
    → n ≡ (i + 1) % native_wg_max_indices
    → drop n (set ks i k) ++ take n (set ks i k) ≡ drop 1 (drop i ks ++ take i ks) ++ (k ∷ [])
rotate-set i k n ks h full e = step (ℕ_discrete (suc i) native_wg_max_indices)
  where
    s : List ℕ
    s = set ks i k

    shifted : drop (suc i) s ++ take (suc i) s ≡ drop 1 (drop i ks ++ take i ks) ++ (k ∷ [])
    shifted =
        cc (drop-set i k ks, take-set i k ks (omega (arith, h, full)))
        ∙ sym (append_assoc (drop (suc i) ks) (take i ks) (k ∷ []))
        ∙ ap (λ q. q ++ (k ∷ [])) (sym (drop_one i ks (take i ks) (omega (arith, h, full))))

    step :
        Dec (suc i ≡ native_wg_max_indices)
        → drop n s ++ take n s ≡ drop 1 (drop i ks ++ take i ks) ++ (k ∷ [])
    step (yes last) =
        let start : n ≡ 0 = omega (arith, e, last) in
        let whole : suc i ≡ length s = omega (arith, last, full, length-set ks i k) in
        ap (λ j. drop j s ++ take j s) start
        ∙ append-nil s
        ∙ sym (ap (λ j. drop j s ++ take j s) whole ∙ cc (drop_all s, take_all s))
        ∙ shifted
    step (no ne) =
        let next : n ≡ suc i = omega (arith, e, h, ne) in
        ap (λ j. drop j s ++ take j s) next ∙ shifted
