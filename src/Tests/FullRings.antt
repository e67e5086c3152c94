-- ===== src/Tests/FullRings.antt =====
-- Inputs for the bounded maps of pkg/relay/nativewg.go: a map at its bound.
use ntwire.Base.{
  ltb, if◌then◌else◌, suc, zero, some, refl, ite, ◌∷◌, has, none, ◌++◌, bit, arith, ◌≡◌, [], IsMap,
  ℕ_discrete, count, length, Map, List, ◌≤◌, lookup, ℕ,
}
use ntwire.Relay.NativeWireguard.{Ring, write_entry, native_wg_max_indices}
use ntwire.Relay.NativeWireguard.Fifo.{queue, write_entry_refines}
use ntwire.Relay.NativeWireguard.Fifo.Rings.{IsRing}

-- n-1 down to 0, each with the value 1
abbrev down : ℕ → List ℕ
down zero = []
down (suc n) = n ∷ down n

abbrev ones : ℕ → Map ℕ ℕ
ones zero = []
ones (suc n) = (n, 1) ∷ ones n

abbrev ring_of : ℕ → Ring ℕ
ring_of n = record { entries = ones n; order = down n; next = 0 }

length-down : (n : ℕ) → length (down n) ≡ n
length-down zero = refl
length-down (suc n) = omega (arith, length-down n)

length-ones : (n : ℕ) → length (ones n) ≡ n
length-ones zero = refl
length-ones (suc n) = omega (arith, length-ones n)

lookup-ones : (n k : ℕ) → n ≤ k → lookup ℕ_discrete k (ones n) ≡ none
unfolding lookup
lookup-ones zero k h = refl
lookup-ones (suc n) k h = ground (arith, lookup-ones n k (omega arith))

ones-IsMap : (n : ℕ) → IsMap ℕ_discrete (ones n)
ones-IsMap zero = tt
ones-IsMap (suc n) = (lookup-ones n n (omega arith), ones-IsMap n)

count-down : (n j : ℕ) → count j (down n) ≡ bit (has ℕ_discrete j (ones n))
unfolding lookup
count-down zero j = refl
count-down (suc n) j = ground (arith, count-down n j, lookup-ones n n (omega arith))

ring_of-IsRing : (n : ℕ) → n ≤ native_wg_max_indices → IsRing (ring_of n)
ring_of-IsRing n h = record {
  keyed = ones-IsMap n;
  listed = λ j. count-down n j;
  sized = omega (arith, length-ones n, length-down n);
  bounded = omega (arith, length-down n, h);
  placed = omega arith;
  unplaced = λ _. refl;
}

-- The oldest key, 4095, makes room for the key 5000.
write_entry_refines_example :
    (queue (write_entry 5000 9 (ring_of 4096)) ≡ down 4095 ++ (5000 ∷ []))
    × ((j : ℕ)
        → lookup ℕ_discrete j (write_entry 5000 9 (ring_of 4096)).entries
          ≡ ite (ℕ_discrete 5000 j) (some 9) (
              if ltb 0 (count j (down 4095 ++ (5000 ∷ [])))
              then lookup ℕ_discrete j (ring_of 4096).entries
              else none))
unfolding lookup ℕ_discrete
write_entry_refines_example =
    write_entry_refines 5000 9 (ring_of 4096) (ring_of-IsRing 4096 (omega arith))
