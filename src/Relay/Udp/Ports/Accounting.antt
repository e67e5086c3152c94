-- ===== src/Relay/Udp/Ports/Accounting.antt =====
-- Where each pooled port is: free, in use, or out of service.
use ntwire.Base.{
  sym, ◌≢◌, inr, inl, ◌-◌, ℕ, ◌+◌, ◌≤◌, ◌≡◌, refl, String, true, false, Option, none, some, List,
  [], ◌∷◌, ite, arith, ℕ_discrete, Map, lookup, insert, has, IsMap, lookup-insert, lookup-delete,
  count, count-append, bit, Option-cases,
}
use ntwire.Relay.Udp.Ports.{
  PortAllocator, insert_port, sorted_ports, new_port_allocator, split_last, is_in_use, allocate,
  release, remove_first, disable,
}

-- How often the allocator holds a port: in its free list, or in use.
abbrev pub weight : PortAllocator → ℕ → ℕ
weight p q = count q p.free + bit (is_in_use p q)

abbrev pub IsSound : PortAllocator → Type 0
IsSound p = (q : ℕ) → weight p q ≤ bit (has ℕ_discrete q p.conns)

count-insert_port : (q p : ℕ) (xs : List ℕ) → count q (insert_port p xs) ≡ count q (p ∷ xs)
unfolding insert_port
count-insert_port q p [] = refl
count-insert_port q p (x ∷ xs) = ground (arith, count-insert_port q p xs)

count-sorted_ports :
    (q : ℕ) (m : Map ℕ String)
    → IsMap ℕ_discrete m
    → count q (sorted_ports m) ≡ bit (has ℕ_discrete q m)
unfolding sorted_ports lookup
count-sorted_ports q [] h = refl
count-sorted_ports q ((p, c) ∷ m) (fresh, h) =
    ground (arith, count-insert_port q p (sorted_ports m), count-sorted_ports q m h)

pub new-weight :
    (conns : Map ℕ String)
    → IsMap ℕ_discrete conns
    → (q : ℕ) → weight (new_port_allocator conns) q ≡ bit (has ℕ_discrete q conns)
unfolding new_port_allocator lookup
new-weight conns h q = ground (arith, count-sorted_ports q conns h)

count_of_split_last-none : (q : ℕ) (xs : List ℕ) → split_last xs ≡ none → count q xs ≡ 0
unfolding split_last
count_of_split_last-none q [] e = refl
count_of_split_last-none q (x ∷ xs) e = ground arith

pub count-split_last :
    (q : ℕ) (xs front : List ℕ) (last : ℕ)
    → split_last xs ≡ some (front, last)
    → count q xs ≡ count q front + ite (ℕ_discrete last q) 1 0
unfolding split_last
count-split_last q [] front last e = ground arith
count-split_last q (x ∷ xs) front last e = elim (Option-cases (split_last xs)) [
  | inl stop ↦ ground (arith, count_of_split_last-none q xs)
  | inr ((f, l), more) ↦ ground (arith, count-split_last q xs f l more)
]

pub allocate-weight :
    (p : PortAllocator) → IsSound p → (q : ℕ) → weight (allocate p).0 q ≡ weight p q
unfolding allocate
allocate-weight p h q = elim (Option-cases (split_last p.free)) [
  | inl stop ↦ rw (stop, allocate) refl
  | inr ((front, last), more) ↦
      rw (more, allocate)
        (ground (
          arith,
          h last,
          count-split_last last p.free front last more,
          count-split_last q p.free front last more,
          lookup-insert ℕ_discrete last q true p.in_use,
        ))
]

pub release-weight : (p : PortAllocator) (port q : ℕ) → weight (release p port) q ≡ weight p q
unfolding release
release-weight p port q =
    ground (arith, count-append q p.free (port ∷ []), lookup-delete ℕ_discrete port q p.in_use)

count-remove_first :
    (q port : ℕ) (xs : List ℕ)
    → count q (remove_first port xs) ≡ ite (ℕ_discrete port q) (count q xs - 1) (count q xs)
unfolding remove_first
count-remove_first q port [] = ground arith
count-remove_first q port (x ∷ xs) = ground (arith, count-remove_first q port xs)

pub disable-weight :
    (p : PortAllocator) (port q : ℕ)
    → weight p port ≤ 1
    → weight (disable p port) q ≡ ite (ℕ_discrete port q) 0 (weight p q)
unfolding disable
disable-weight p port q h =
    ground (arith, count-remove_first q port p.free, lookup-delete ℕ_discrete port q p.in_use)

-- The pool itself never changes.
allocate-conns :
    (p : PortAllocator) (q : ℕ) → has ℕ_discrete q (allocate p).0.conns ≡ has ℕ_discrete q p.conns
unfolding allocate
allocate-conns p q = ground arith

release-conns :
    (p : PortAllocator) (port q : ℕ)
    → has ℕ_discrete q (release p port).conns ≡ has ℕ_discrete q p.conns
unfolding release
release-conns p port q = ground arith

disable-conns :
    (p : PortAllocator) (port q : ℕ)
    → has ℕ_discrete q (disable p port).conns ≡ has ℕ_discrete q p.conns
unfolding disable
disable-conns p port q = refl

pub allocate-IsSound : (p : PortAllocator) → IsSound p → IsSound (allocate p).0
allocate-IsSound p h q = ground (arith, allocate-weight p h q, h q, allocate-conns p q)

pub release-IsSound : (p : PortAllocator) (port : ℕ) → IsSound p → IsSound (release p port)
release-IsSound p port h q = ground (arith, release-weight p port q, h q, release-conns p port q)

pub disable-IsSound : (p : PortAllocator) (port : ℕ) → IsSound p → IsSound (disable p port)
disable-IsSound p port h q =
    ground (arith, disable-weight p port q, h q, h port, disable-conns p port q)

pub release-is_in_use :
    (p : PortAllocator) (port q : ℕ)
    → is_in_use (release p port) q ≡ ite (ℕ_discrete port q) false (is_in_use p q)
unfolding release
release-is_in_use p port q = ground (arith, lookup-delete ℕ_discrete port q p.in_use)

pub disable-is_in_use :
    (p : PortAllocator) (port q : ℕ)
    → is_in_use (disable p port) q ≡ ite (ℕ_discrete port q) false (is_in_use p q)
unfolding disable
disable-is_in_use p port q = ground (arith, lookup-delete ℕ_discrete port q p.in_use)

-- A port that is handed out was free, is pooled, and is in use from then on.
module _ (p p' : PortAllocator) (port : ℕ) (conn : Option String) (h : IsSound p)
    (given : allocate p ≡ (p', some (port, conn))) where
  allocate_split :
      (front : List ℕ) × (split_last p.free ≡ some (front, port))
      × (p' ≡ record p { free = front; in_use = insert ℕ_discrete port true p.in_use })
      × (conn ≡ lookup ℕ_discrete port p.conns)
  unfolding allocate
  allocate_split = elim (Option-cases (split_last p.free)) [
    | inl stop ↦ absurd (ground arith)
    | inr ((front, last), more) ↦ (front, ground arith, ground arith, ground arith)
  ]

  pub allocate_free : is_in_use p port ≡ false
  allocate_free =
      let (front, split, _, _) = allocate_split in
      ground (arith, h port, count-split_last port p.free front port split)

  pub allocate_pooled : conn ≢ none
  allocate_pooled =
      let (front, split, _, same) = allocate_split in
      λ e. ground (arith, h port, count-split_last port p.free front port split)

  pub allocate-is_in_use : (q : ℕ) → is_in_use p' q ≡ ite (ℕ_discrete port q) true (is_in_use p q)
  allocate-is_in_use q =
      let (front, split, same, _) = allocate_split in
      ground (arith, lookup-insert ℕ_discrete port q true p.in_use)

  pub allocate_conn : lookup ℕ_discrete port p.conns ≡ conn
  allocate_conn = let (_, _, _, same) = allocate_split in sym same

split_last-ne-none : (xs : List ℕ) → xs ≢ [] → split_last xs ≢ none
unfolding split_last
split_last-ne-none [] h = absurd (h refl)
split_last-ne-none (x ∷ xs) h = λ e. ground arith

pub allocate-ne-none : (p : PortAllocator) → p.free ≢ [] → (allocate p).1 ≢ none
unfolding allocate
allocate-ne-none p h = λ e. elim (Option-cases (split_last p.free)) [
  | inl stop ↦ absurd (split_last-ne-none p.free h stop)
  | inr (_, more) ↦ ground arith
]
