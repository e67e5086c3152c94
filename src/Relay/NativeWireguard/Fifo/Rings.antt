-- ===== src/Relay/NativeWireguard/Fifo/Rings.antt =====
-- The bounded maps of pkg/relay/nativewg.go, `indices` and `pairs`, in step with their orders
-- `indexOrder` and `pairOrder`.
use ntwire.Base.{
  ℕ, ◌+◌, ◌%◌, ◌≤◌, ◌<◌, ◌≡◌, refl, sym, ap, ◌∙◌, ◌≢◌, inl, inr, Bool, true, false, none, some, [],
  ◌∷◌, ◌++◌, arith, ℕ_discrete, length, set, length-set, length-append, bit, count, count-append,
  Map, lookup, delete, insert, lookup-delete, lookup-insert, has, IsMap, delete-IsMap, insert-IsMap,
  length-delete, bit-has-le, length-insert_absent, ◌==◌, if◌then◌else◌, Option-cases,
}
use ntwire.Relay.NativeWireguard.{
  Ring, native_wg_max_indices, empty_ring, order_at, reserve, write_entry,
}
use ntwire.Relay.NativeWireguard.Fifo.Arrays.{same, count-set, count-order_at}

module _ {V : Type 0} where
  -- The order lists the keys of the map, each once, and there are at most 4096.
  pub record IsRing (r : Ring V) : Type 0 where
    pub keyed : IsMap ℕ_discrete r.entries
    pub listed : (j : ℕ) → count j r.order ≡ bit (has ℕ_discrete j r.entries)
    pub sized : length r.entries ≡ length r.order
    pub bounded : length r.order ≤ native_wg_max_indices
    pub placed : r.next < native_wg_max_indices
    pub unplaced : length r.order < native_wg_max_indices → r.next ≡ 0

  bit-has-insert :
      (j k : ℕ) (v : V) (m : Map ℕ V)
      → bit (has ℕ_discrete k m) ≡ 0
      → bit (has ℕ_discrete j (insert ℕ_discrete k v m)) ≡ bit (has ℕ_discrete j m) + same k j
  bit-has-insert j k v m e = ground (arith, lookup-insert ℕ_discrete k j v m)

  bit-has-delete :
      (j k : ℕ) (m : Map ℕ V)
      → bit (has ℕ_discrete k m) ≡ 1
      → bit (has ℕ_discrete j (delete ℕ_discrete k m)) + same k j ≡ bit (has ℕ_discrete j m)
  bit-has-delete j k m e = ground (arith, lookup-delete ℕ_discrete k j m)

  bit-has-rewrite :
      (j k : ℕ) (v : V) (m : Map ℕ V)
      → has ℕ_discrete k m ≡ true
      → bit (has ℕ_discrete j (insert ℕ_discrete k v m)) ≡ bit (has ℕ_discrete j m)
  bit-has-rewrite j k v m e = ground (arith, lookup-insert ℕ_discrete k j v m)

  length-rewrite :
      (k : ℕ) (v : V) (m : Map ℕ V)
      → IsMap ℕ_discrete m
      → has ℕ_discrete k m ≡ true
      → length (insert ℕ_discrete k v m) ≡ length m
  unfolding insert
  length-rewrite k v m h e = elim (Option-cases (lookup ℕ_discrete k m)) [
    | inl none_ ↦ absurd (ground (arith, e, none_))
    | inr (w, some_) ↦ omega (arith, length-delete ℕ_discrete k w m h some_)
  ]

  pub rewrite-IsRing :
      (k : ℕ) (v : V) (r : Ring V)
      → IsRing r
      → has ℕ_discrete k r.entries ≡ true
      → IsRing (record r { entries = insert ℕ_discrete k v r.entries })
  rewrite-IsRing k v r h e = record {
    keyed = insert-IsMap ℕ_discrete k v r.entries h.keyed;
    listed = λ j. h.listed j ∙ sym (bit-has-rewrite j k v r.entries e);
    sized = length-rewrite k v r.entries h.keyed e ∙ h.sized;
    bounded = h.bounded;
    placed = h.placed;
    unplaced = h.unplaced;
  }

  absent : (k : ℕ) (m : Map ℕ V) → has ℕ_discrete k m ≡ false → lookup ℕ_discrete k m ≡ none
  absent k m e = ground (arith, e)

  present :
      (k : ℕ) (m : Map ℕ V)
      → 0 < bit (has ℕ_discrete k m)
      → (v : V) × (lookup ℕ_discrete k m ≡ some v)
  present k m e = elim (Option-cases (lookup ℕ_discrete k m)) [
    | inl n ↦ absurd (ground (arith, e, n))
    | inr found ↦ found
  ]

  append-IsRing :
      (k : ℕ) (v : V) (r : Ring V)
      → IsRing r
      → has ℕ_discrete k r.entries ≡ false
      → length r.order < native_wg_max_indices
      → IsRing (record r { entries = insert ℕ_discrete k v r.entries; order = r.order ++ (k ∷ []) })
  append-IsRing k v r h e free = record {
    keyed = insert-IsMap ℕ_discrete k v r.entries h.keyed;
    listed = λ j. omega (
      arith,
      count-append j r.order (k ∷ []),
      h.listed j,
      bit-has-insert j k v r.entries (ap bit e),
    );
    sized =
        length-insert_absent ℕ_discrete k v r.entries (absent k r.entries e)
        ∙ omega (arith, h.sized, length-append r.order (k ∷ []));
    bounded = omega (arith, length-append r.order (k ∷ []));
    placed = h.placed;
    unplaced = λ _. h.unplaced free;
  }

  evict-IsRing :
      (k : ℕ) (v : V) (r : Ring V)
      → IsRing r
      → has ℕ_discrete k r.entries ≡ false
      → length r.order ≡ native_wg_max_indices
      → IsRing (record {
        entries = insert ℕ_discrete k v (delete ℕ_discrete (order_at r.order r.next) r.entries);
        order = set r.order r.next k;
        next = (r.next + 1) % length r.order;
      })
  evict-IsRing k v r h e full = record {
    keyed = insert-IsMap ℕ_discrete k v rest (delete-IsMap ℕ_discrete old r.entries h.keyed);
    listed = λ j. omega (
      arith,
      count-set j k r.next r.order within,
      h.listed j,
      bit-has-delete j old r.entries old_bit,
      bit-has-insert j k v rest (ap bit gone),
    );
    sized =
        length-insert_absent ℕ_discrete k v rest (absent k rest gone)
        ∙ omega (
          arith,
          length-delete ℕ_discrete old was.0 r.entries h.keyed was.1,
          h.sized,
          length-set r.order r.next k,
        );
    bounded = omega (arith, length-set r.order r.next k, h.bounded);
    placed = rw full (omega arith);
    unplaced = λ short. absurd (omega (arith, length-set r.order r.next k, short, full));
  }
    where
      within : r.next < length r.order
      within = omega (arith, h.placed, full)

      old : ℕ
      old = order_at r.order r.next

      rest : Map ℕ V
      rest = delete ℕ_discrete old r.entries

      listed_old : 0 < bit (has ℕ_discrete old r.entries)
      listed_old = omega (arith, h.listed old, count-order_at r.next r.order within)

      old_bit : bit (has ℕ_discrete old r.entries) ≡ 1
      old_bit = omega (arith, listed_old, bit-has-le ℕ_discrete old r.entries)

      was : (w : V) × (lookup ℕ_discrete old r.entries ≡ some w)
      was = present old r.entries listed_old

      gone : has ℕ_discrete k rest ≡ false
      gone = ground (arith, lookup-delete ℕ_discrete old k r.entries, e)

  -- Writing an entry keeps the bound and the order.
  pub write_entry-IsRing : (k : ℕ) (v : V) (r : Ring V) → IsRing r → IsRing (write_entry k v r)
  unfolding write_entry reserve
  write_entry-IsRing k v r h =
      known (has ℕ_discrete k r.entries) (length r.order == native_wg_max_indices) refl refl
    where
      known :
          (b full : Bool)
          → has ℕ_discrete k r.entries ≡ b
          → (length r.order == native_wg_max_indices) ≡ full
          → let s : Ring V =
              if b
              then r
              else if full
              then record {
                entries = delete ℕ_discrete (order_at r.order r.next) r.entries;
                order = set r.order r.next k;
                next = (r.next + 1) % length r.order;
              }
              else record r { order = r.order ++ (k ∷ []) } in
            IsRing (record s { entries = insert ℕ_discrete k v s.entries })
      known true full e f = rewrite-IsRing k v r h e
      known false true e f = evict-IsRing k v r h e (ground (arith, f))
      known false false e f =
          let unequal : length r.order ≢ native_wg_max_indices = λ q. ground (arith, f, q) in
          append-IsRing k v r h e (omega (arith, unequal, h.bounded))

pub empty_ring-IsRing : {V : Type 0} → IsRing (empty_ring {V = V})
unfolding lookup
empty_ring-IsRing = record {
  keyed = tt;
  listed = λ j. refl;
  sized = refl;
  bounded = omega arith;
  placed = omega arith;
  unplaced = λ _. refl;
}
