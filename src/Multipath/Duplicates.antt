-- ===== src/Multipath/Duplicates.antt =====
-- `DuplicateCache` of pkg/wstransport/multipath.go. `Seen` is one step under the mutex, given the
-- clock's reading. Which entry makes room is the first in the order of the map, as `range` visits it.
use ntwire.Base.{
  list_discrete, ℕ, suc, ◌+◌, ◌-◌, ◌*◌, ◌^◌, ◌≤◌, ◌<◌, ◌≡◌, refl, sym, ap, ◌∙◌, ◌⊎◌, inl, inr, Bool,
  true, false, not, ◌||◌, Option, none, some, List, [], ◌∷◌, arith, ℕ_discrete, length, take, drop,
  Map, lookup, delete, insert, lookup-delete, lookup-head, length-delete-le, length-insert-le,
  lookup-insert_cases, ltb, leb, ◌==◌, if◌then◌else◌, Bool-cases,
}
use ntwire.Relay.Udp.Frames.{Bytes}

pub record Cache : Type 0 where
  pub entries : Map Bytes ℕ
  pub ttl : ℕ
  pub limit : ℕ

-- A limit or a ttl that is not positive is 0 here.
unfoldable pub new_duplicate_cache : ℕ → ℕ → Cache
new_duplicate_cache limit ttl = record {
  entries = [];
  ttl = if ttl == 0 then 10000000000 else ttl;
  limit = if limit == 0 then 4096 else limit;
}

abbrev pub bytes_discrete : Discrete Bytes
bytes_discrete = list_discrete ℕ_discrete

-- the message type, a little-endian 32-bit number
abbrev pub message_type : Bytes → ℕ
message_type (b0 ∷ b1 ∷ b2 ∷ b3 ∷ b) = b0 + b1 * 2 ^ 8 + b2 * 2 ^ 16 + b3 * 2 ^ 24
message_type _ = 0

-- the receiver index and the counter of a type-4 packet
unfoldable pub transport_key : Bytes → Option Bytes
transport_key b =
    if ltb (length b) 16 || not (message_type b == 4) then none else some (take 12 (drop 4 b))

unfoldable pub evict_one : Map Bytes ℕ → Map Bytes ℕ
evict_one [] = []
evict_one ((k, e) ∷ m) = delete bytes_discrete k ((k, e) ∷ m)

-- the end of `Seen`, for a key that is not in the cache
unfoldable pub remember : Bytes → ℕ → Cache → Map Bytes ℕ → Cache
unfolding evict_one
remember k now c m =
    let room = if leb c.limit (length m) then evict_one m else m in
    record c { entries = insert bytes_discrete k (now + c.ttl) room }

-- `Seen` for a key and what the cache has of it
unfoldable pub seen_key : Bytes → ℕ → Cache → Option ℕ → Cache × Bool
unfolding remember
seen_key k now c none = (remember k now c c.entries, false)
seen_key k now c (some expiry) =
    if ltb now expiry
    then (c, true)
    else (remember k now c (delete bytes_discrete k c.entries), false)

abbrev seen_packet : ℕ → Cache → Option Bytes → Cache × Bool
seen_packet now c none = (c, false)
seen_packet now c (some k) = seen_key k now c (lookup bytes_discrete k c.entries)

unfoldable pub seen : Bytes → ℕ → Cache → Cache × Bool
unfolding seen_key transport_key
seen b now c = seen_packet now c (transport_key b)

-- The cache after calls, the newest first.
abbrev pub after_calls : ℕ → ℕ → List (Bytes × ℕ) → Cache
after_calls limit ttl [] = new_duplicate_cache limit ttl
after_calls limit ttl ((b, now) ∷ calls) = (seen b now (after_calls limit ttl calls)).0

evict_one-lt : (m : Map Bytes ℕ) (n : ℕ) → length m ≤ suc n → length (evict_one m) ≤ n
unfolding evict_one delete
evict_one-lt [] n h = omega arith
evict_one-lt ((k, e) ∷ m) n h = ground (arith, length-delete-le bytes_discrete k m)

remember-bounded :
    (k : Bytes) (now : ℕ) (c : Cache) (m : Map Bytes ℕ)
    → 0 < c.limit
    → length m ≤ c.limit
    → length (remember k now c m).entries ≤ c.limit
unfolding remember
remember-bounded k now c m pos h = step (Bool-cases (leb c.limit (length m)))
  where
    step :
        (leb c.limit (length m) ≡ true) ⊎ (leb c.limit (length m) ≡ false)
        → length (
            insert bytes_discrete k
              (now + c.ttl)
              (if leb c.limit (length m) then evict_one m else m))
          ≤ c.limit
    step (inl e) = rw e (
        omega (
          arith,
          length-insert-le bytes_discrete k (now + c.ttl) (evict_one m),
          evict_one-lt m (c.limit - 1) (omega arith),
        ))
    step (inr e) =
        let free : length m < c.limit = ground arith in
        rw e (omega (arith, length-insert-le bytes_discrete k (now + c.ttl) m))

-- The packet was passed in one of the calls, and its entry ends at that time.
abbrev pub Passed : ℕ → Bytes → ℕ → List (Bytes × ℕ) → Type 0
Passed ttl k e [] = ⊥
Passed ttl k e ((b, now) ∷ calls) =
    ((transport_key b ≡ some k) × (e ≡ now + ttl)) ⊎ Passed ttl k e calls

delete-sub :
    (k j : Bytes) (e : ℕ) (m : Map Bytes ℕ)
    → lookup bytes_discrete j (delete bytes_discrete k m) ≡ some e
    → lookup bytes_discrete j m ≡ some e
delete-sub k j e m h = ground (arith, lookup-delete bytes_discrete k j m)

evict_one-sub :
    (j : Bytes) (e : ℕ) (m : Map Bytes ℕ)
    → lookup bytes_discrete j (evict_one m) ≡ some e
    → lookup bytes_discrete j m ≡ some e
unfolding evict_one
evict_one-sub j e [] h = h
evict_one-sub j e ((k, f) ∷ m) h = delete-sub k j e ((k, f) ∷ m) h

remember-from :
    (k : Bytes) (now : ℕ) (c : Cache) (m : Map Bytes ℕ) (j : Bytes) (e : ℕ)
    → ((i : Bytes) (f : ℕ)
        → lookup bytes_discrete i m ≡ some f
        → lookup bytes_discrete i c.entries ≡ some f)
    → lookup bytes_discrete j (remember k now c m).entries ≡ some e
    → ((k ≡ j) × (e ≡ now + c.ttl)) ⊎ (lookup bytes_discrete j c.entries ≡ some e)
unfolding remember
remember-from k now c m j e sub h =
    let room = if leb c.limit (length m) then evict_one m else m in
    elim (lookup-insert_cases bytes_discrete k j (now + c.ttl) e room h) [
      | inl new ↦ inl new
      | inr old ↦ inr (sub j e (step (leb c.limit (length m)) old))
    ]
  where
    step :
        (b : Bool)
        → lookup bytes_discrete j (if b then evict_one m else m) ≡ some e
        → lookup bytes_discrete j m ≡ some e
    step true old = evict_one-sub j e m old
    step false old = old

seen-settings :
    (b : Bytes) (now : ℕ) (c : Cache)
    → ((seen b now c).0.ttl ≡ c.ttl) × ((seen b now c).0.limit ≡ c.limit)
unfolding seen seen_key remember
seen-settings b now c = ground arith

seen_key-bounded :
    (k : Bytes) (now : ℕ) (c : Cache) (o : Option ℕ)
    → 0 < c.limit
    → length c.entries ≤ c.limit
    → length (seen_key k now c o).0.entries ≤ c.limit
unfolding seen_key
seen_key-bounded k now c none pos h = remember-bounded k now c c.entries pos h
seen_key-bounded k now c (some expiry) pos h = step (ltb now expiry) (
    remember-bounded k now c (delete bytes_discrete k c.entries) pos
      (omega (arith, length-delete-le bytes_discrete k c.entries)))
  where
    step :
        (late : Bool)
        → length (remember k now c (delete bytes_discrete k c.entries)).entries ≤ c.limit
        → let r : Cache × Bool =
            if late
            then (c, true)
            else (remember k now c (delete bytes_discrete k c.entries), false) in
          length r.0.entries ≤ c.limit
    step true q = h
    step false q = q

seen-bounded :
    (b : Bytes) (now : ℕ) (c : Cache)
    → 0 < c.limit
    → length c.entries ≤ c.limit
    → length (seen b now c).0.entries ≤ c.limit
unfolding seen
seen-bounded b now c pos h = step (transport_key b)
  where
    step : (o : Option Bytes) → length (seen_packet now c o).0.entries ≤ c.limit
    step none = h
    step (some k) = seen_key-bounded k now c (lookup bytes_discrete k c.entries) pos h

-- An entry is that of the packet or stood before.
abbrev From : Bytes → ℕ → Cache → Bytes → ℕ → Type 0
From b now c j e =
    ((transport_key b ≡ some j) × (e ≡ now + c.ttl)) ⊎ (lookup bytes_discrete j c.entries ≡ some e)

seen_key-From :
    (b k : Bytes) (now : ℕ) (c : Cache) (j : Bytes) (e : ℕ) (o : Option ℕ)
    → transport_key b ≡ some k
    → lookup bytes_discrete j (seen_key k now c o).0.entries ≡ some e
    → From b now c j e
unfolding seen_key
seen_key-From b k now c j e o is_key h = step o h
  where
    absent :
        (m : Map Bytes ℕ)
        → ((i : Bytes) (f : ℕ)
            → lookup bytes_discrete i m ≡ some f
            → lookup bytes_discrete i c.entries ≡ some f)
        → lookup bytes_discrete j (remember k now c m).entries ≡ some e
        → From b now c j e
    absent m sub h = elim (remember-from k now c m j e sub h) [
      | inl (same, t) ↦ inl (is_key ∙ ap some same, t)
      | inr old ↦ inr old
    ]

    expired :
        (late : Bool)
        → let r : Cache × Bool =
            if late
            then (c, true)
            else (remember k now c (delete bytes_discrete k c.entries), false) in
          lookup bytes_discrete j r.0.entries ≡ some e → From b now c j e
    expired true h = inr h
    expired false h =
        absent (delete bytes_discrete k c.entries) (λ i f. delete-sub k i f c.entries) h

    step :
        (o : Option ℕ)
        → lookup bytes_discrete j (seen_key k now c o).0.entries ≡ some e
        → From b now c j e
    step none h = absent c.entries (λ i f r. r) h
    step (some expiry) h = expired (ltb now expiry) h

seen-From :
    (b : Bytes) (now : ℕ) (c : Cache) (j : Bytes) (e : ℕ)
    → lookup bytes_discrete j (seen b now c).0.entries ≡ some e
    → From b now c j e
unfolding seen
seen-From b now c j e h = step (transport_key b) refl h
  where
    step :
        (o : Option Bytes)
        → transport_key b ≡ o
        → lookup bytes_discrete j (seen_packet now c o).0.entries ≡ some e
        → From b now c j e
    step none is_key h = inr h
    step (some k) is_key h =
        seen_key-From b k now c j e (lookup bytes_discrete k c.entries) is_key h

seen-true :
    (b : Bytes) (now : ℕ) (c : Cache)
    → (seen b now c).1 ≡ true
    → (k : Bytes) × (e : ℕ) × (transport_key b ≡ some k)
      × (lookup bytes_discrete k c.entries ≡ some e)
      × (now < e)
unfolding seen seen_key
seen-true b now c h = ground arith

after_calls-ttl :
    (limit ttl : ℕ) (calls : List (Bytes × ℕ))
    → (after_calls limit ttl calls).ttl ≡ (new_duplicate_cache limit ttl).ttl
after_calls-ttl limit ttl [] = refl
after_calls-ttl limit ttl ((b, now) ∷ calls) =
    (seen-settings b now (after_calls limit ttl calls)).0 ∙ after_calls-ttl limit ttl calls

after_calls-Passed :
    (limit ttl : ℕ) (calls : List (Bytes × ℕ)) (k : Bytes) (e : ℕ)
    → lookup bytes_discrete k (after_calls limit ttl calls).entries ≡ some e
    → Passed (new_duplicate_cache limit ttl).ttl k e calls
unfolding new_duplicate_cache lookup
after_calls-Passed limit ttl [] k e h = absurd (grind (arith, h))
after_calls-Passed limit ttl ((b, now) ∷ calls) k e h =
    elim (seen-From b now (after_calls limit ttl calls) k e h) [
      | inl (is_key, t) ↦ inl (is_key, t ∙ ap (λ d. now + d) (after_calls-ttl limit ttl calls))
      | inr old ↦ inr (after_calls-Passed limit ttl calls k e old)
    ]

-- From a new cache, after any calls, a packet is suppressed only if it is a transport packet of which an
-- earlier call passed the same receiver index and counter, less than the ttl ago.
pub only_repeats_suppressed :
    (limit ttl : ℕ) (calls : List (Bytes × ℕ)) (b : Bytes) (now : ℕ)
    → (seen b now (after_calls limit ttl calls)).1 ≡ true
    → (k : Bytes) × (e : ℕ) × (transport_key b ≡ some k)
      × (now < e)
      × Passed (new_duplicate_cache limit ttl).ttl k e calls
only_repeats_suppressed limit ttl calls b now h =
    let (k, e, is_key, found, late) = seen-true b now (after_calls limit ttl calls) h in
    (k, e, is_key, late, after_calls-Passed limit ttl calls k e found)

-- After any calls, the cache holds at most its limit of entries, which is not zero.
pub after_calls-bounded :
    (limit ttl : ℕ) (calls : List (Bytes × ℕ))
    → (0 < (after_calls limit ttl calls).limit)
      × (length (after_calls limit ttl calls).entries ≤ (after_calls limit ttl calls).limit)
unfolding new_duplicate_cache
after_calls-bounded limit ttl [] = ground arith
after_calls-bounded limit ttl ((b, now) ∷ calls) =
    let (pos, h) = after_calls-bounded limit ttl calls in
    let same = (seen-settings b now (after_calls limit ttl calls)).1 in
    (rw same pos, omega (arith, same, seen-bounded b now (after_calls limit ttl calls) pos h))

remember-lookup :
    (k : Bytes) (now : ℕ) (c : Cache) (m : Map Bytes ℕ)
    → lookup bytes_discrete k (remember k now c m).entries ≡ some (now + c.ttl)
unfolding remember insert
remember-lookup k now c m =
    let room = if leb c.limit (length m) then evict_one m else m in
    lookup-head bytes_discrete k (now + c.ttl) (delete bytes_discrete k room)

seen_key-lookup :
    (k : Bytes) (now : ℕ) (c : Cache) (o : Option ℕ)
    → (seen_key k now c o).1 ≡ false
    → lookup bytes_discrete k (seen_key k now c o).0.entries ≡ some (now + c.ttl)
unfolding seen_key
seen_key-lookup k now c none h = remember-lookup k now c c.entries
seen_key-lookup k now c (some expiry) h =
    step (ltb now expiry) h (remember-lookup k now c (delete bytes_discrete k c.entries))
  where
    step :
        (late : Bool)
        → let r : Cache × Bool =
            if late
            then (c, true)
            else (remember k now c (delete bytes_discrete k c.entries), false) in
          r.1 ≡ false
          → lookup bytes_discrete k (remember k now c (delete bytes_discrete k c.entries)).entries
            ≡ some (now + c.ttl)
          → lookup bytes_discrete k r.0.entries ≡ some (now + c.ttl)
    step true h q = absurd (grind (arith, h))
    step false h q = q

-- A transport packet that was let through is suppressed when it comes again within the ttl.
pub seen_again :
    (b : Bytes) (now later : ℕ) (c : Cache) (k : Bytes)
    → transport_key b ≡ some k
    → (seen b now c).1 ≡ false
    → later < now + c.ttl
    → (seen b later (seen b now c).0).1 ≡ true
unfolding seen seen_key
seen_again b now later c k is_key first soon =
    let r = seen_key k now c (lookup bytes_discrete k c.entries) in
    let here : seen b now c ≡ r = ap (seen_packet now c) is_key in
    let found =
      seen_key-lookup k now c (lookup bytes_discrete k c.entries)
        (sym (ap (λ x. x.1) here) ∙ first) in
    let again : seen b later r.0 ≡ seen_key k later r.0 (some (now + c.ttl)) =
      ap (seen_packet later r.0) is_key ∙ ap (seen_key k later r.0) found in
    let refused : (seen_key k later r.0 (some (now + c.ttl))).1 ≡ true = ground (arith, soon) in
    ap (λ x. (seen b later x.0).1) here ∙ ap (λ x. x.1) again ∙ refused
