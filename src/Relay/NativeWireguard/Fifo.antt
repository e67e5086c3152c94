-- ===== src/Relay/NativeWireguard/Fifo.antt =====
-- The bounded maps of pkg/relay/nativewg.go, `indices` and `pairs` with their orders, and the bounded
-- queue of keys that they stand for.
pub mod Arrays
pub mod Rings
use ntwire.Base.{
  ℕ, zero, suc, ◌+◌, ◌%◌, ◌≤◌, ◌<◌, ◌≡◌, refl, sym, ap, ◌∙◌, ◌≢◌, inl, inr, ite, Bool, true, false,
  none, some, List, [], ◌∷◌, ◌++◌, append_assoc, append-nil, arith, ℕ_discrete, length, take, drop,
  set, length-set, length-append, take-append-drop, bit, count, count-append, Map, lookup, delete,
  insert, lookup-delete, lookup-insert, has, IsMap, delete-IsMap, insert-IsMap, length-delete,
  bit-has-le, length-insert_absent, ◌==◌, if◌then◌else◌, Option-cases, ltb,
}
use ntwire.Relay.NativeWireguard.{
  Ring, native_wg_max_indices, empty_ring, order_at, reserve, write_entry,
}
use ntwire.Relay.NativeWireguard.Fifo.Arrays.{rotate-set}
use ntwire.Relay.NativeWireguard.Fifo.Rings.{IsRing, write_entry-IsRing}

module _ {V : Type 0} where
  -- The keys, the oldest first.
  abbrev pub queue : Ring V → List ℕ
  queue r = drop r.next r.order ++ take r.next r.order

-- The abstract bounded queue: a new key goes to the end, and where the queue is full the first leaves.
abbrev pub push : Bool → ℕ → List ℕ → List ℕ
push known k q =
    if known
    then q
    else if length q == native_wg_max_indices
    then drop 1 q ++ (k ∷ [])
    else q ++ (k ∷ [])

write_entry-queue :
    {V : Type 0} (k : ℕ) (v : V) (r : Ring V)
    → IsRing r
    → queue (write_entry k v r) ≡ push (has ℕ_discrete k r.entries) k (queue r)
unfolding write_entry reserve
write_entry-queue {V} k v r h =
    known (has ℕ_discrete k r.entries) (length r.order == native_wg_max_indices) refl
  where
    size : length (queue r) ≡ length r.order
    size = omega (
      arith,
      length-append (drop r.next r.order) (take r.next r.order),
      ap length (take-append-drop r.next r.order),
      length-append (take r.next r.order) (drop r.next r.order),
    )

    known :
        (b full : Bool)
        → (length r.order == native_wg_max_indices) ≡ full
        → let s : Ring V =
            if b
            then r
            else if full
            then record {
              entries = delete ℕ_discrete (order_at r.order r.next) r.entries;
              order = set r.order r.next k;
              next = (r.next + 1) % length r.order;
            }
            else record r { order = r.order ++ (k ∷ []) } in
          drop s.next s.order ++ take s.next s.order ≡ push b k (queue r)
    known true full f = refl
    known false true f =
        let all : length r.order ≡ native_wg_max_indices = ground (arith, f) in
        let turned =
          rotate-set r.next k ((r.next + 1) % length r.order) r.order h.placed all (rw all refl) in
        let full_queue : (length (queue r) == native_wg_max_indices) ≡ true =
          ground (arith, size, all) in
        turned
        ∙ ap (λ b. if b then drop 1 (queue r) ++ (k ∷ []) else queue r ++ (k ∷ [])) (sym full_queue)
    known false false f =
        let free : length r.order < native_wg_max_indices = ground (arith, f, h.bounded) in
        let open_queue : (length (queue r) == native_wg_max_indices) ≡ false =
          ground (arith, size, free) in
        let ks = r.order in
        ap (λ j. drop j (ks ++ (k ∷ [])) ++ take j (ks ++ (k ∷ []))) (h.unplaced free)
        ∙ append-nil (ks ++ (k ∷ []))
        ∙ ap (λ q. q ++ (k ∷ [])) (sym (append-nil ks))
        ∙ ap (λ j. (drop j ks ++ take j ks) ++ (k ∷ [])) (sym (h.unplaced free))
        ∙ ap (λ b. if b then drop 1 (queue r) ++ (k ∷ []) else queue r ++ (k ∷ [])) (sym open_queue)

count-queue : {V : Type 0} (j : ℕ) (r : Ring V) → count j (queue r) ≡ count j r.order
count-queue j r = omega (
  arith,
  count-append j (drop r.next r.order) (take r.next r.order),
  count-append j (take r.next r.order) (drop r.next r.order),
  ap (count j) (take-append-drop r.next r.order),
)

-- No other key comes in, nor is its value changed.
write_entry-old :
    {V : Type 0} (k j : ℕ) (v x : V) (r : Ring V)
    → k ≢ j
    → lookup ℕ_discrete j (write_entry k v r).entries ≡ some x
    → lookup ℕ_discrete j r.entries ≡ some x
unfolding write_entry reserve
write_entry-old k j v x r ne e = ground (
  arith,
  lookup-insert ℕ_discrete k j v r.entries,
  lookup-insert ℕ_discrete k j v (delete ℕ_discrete (order_at r.order r.next) r.entries),
  lookup-delete ℕ_discrete (order_at r.order r.next) j r.entries,
)

write_entry-new :
    {V : Type 0} (k : ℕ) (v : V) (r : Ring V)
    → lookup ℕ_discrete k (write_entry k v r).entries ≡ some v
unfolding write_entry
write_entry-new k v r = ground (arith, lookup-insert ℕ_discrete k k v (reserve k r).entries)

write_entry-lookup :
    {V : Type 0} (k j : ℕ) (v : V) (r : Ring V)
    → IsRing r
    → lookup ℕ_discrete j (write_entry k v r).entries
      ≡ ite (ℕ_discrete k j) (some v) (
          if ltb 0 (count j (queue (write_entry k v r)))
          then lookup ℕ_discrete j r.entries
          else none)
write_entry-lookup k j v r h = elim (ℕ_discrete k j) [
  | yes p ↦ ground (arith, write_entry-new k v r)
  | no ne ↦
      let s = write_entry k v r in
      let listed = count-queue j s ∙ (write_entry-IsRing k v r h).listed j in
      elim (Option-cases (lookup ℕ_discrete j s.entries)) [
        | inl gone ↦ ground (arith, listed, gone)
        | inr (x, kept) ↦ ground (arith, listed, kept, write_entry-old k j v x r ne kept)
      ]
]

-- `write_entry` implements the bounded map in its order: the keys become those of the bounded queue,
-- where a new key goes to the end and, at 4096 keys, the oldest leaves. The written key has its
-- value, the other keys of the queue keep theirs, and every other key, the one that left among them,
-- has none.
pub write_entry_refines :
    {V : Type 0} (k : ℕ) (v : V) (r : Ring V)
    → IsRing r
    → (queue (write_entry k v r) ≡ push (has ℕ_discrete k r.entries) k (queue r))
      × ((j : ℕ)
          → lookup ℕ_discrete j (write_entry k v r).entries
            ≡ ite (ℕ_discrete k j) (some v) (
                if ltb 0 (count j (push (has ℕ_discrete k r.entries) k (queue r)))
                then lookup ℕ_discrete j r.entries
                else none))
write_entry_refines k v r h =
    let q = write_entry-queue k v r h in (q, λ j. rw (← q) (write_entry-lookup k j v r h))
