-- ===== src/Relay/Udp/Ports.antt =====
-- `portAllocator` of pkg/relay/udpsession.go. A pooled socket is known by its local address, the
-- one thing that is read of it; the mutex makes each method one step.
pub mod Accounting
use ntwire.Base.{
  ℕ, String, Bool, true, false, Option, none, some, List, [], ◌∷◌, ◌++◌, ℕ_discrete, Map, lookup,
  insert, delete, get_or, leb, if◌then◌else◌, ◌==◌,
}

pub record PortAllocator : Type 0 where
  pub conns : Map ℕ String
  pub free : List ℕ
  pub in_use : Map ℕ Bool

-- `sort.Slice` with `<`
insert_port : ℕ → List ℕ → List ℕ
insert_port p [] = p ∷ []
insert_port p (q ∷ qs) = let rest = insert_port p qs in if leb p q then p ∷ q ∷ qs else q ∷ rest

unfoldable pub sorted_ports : Map ℕ String → List ℕ
unfolding insert_port
sorted_ports [] = []
sorted_ports ((p, _) ∷ m) = insert_port p (sorted_ports m)

unfoldable pub new_port_allocator : Map ℕ String → PortAllocator
unfolding sorted_ports
new_port_allocator conns = record { conns = conns; free = sorted_ports conns; in_use = [] }

-- p.free[:len(p.free)-1] and p.free[len(p.free)-1]; nothing of an empty slice
unfoldable pub split_last : List ℕ → Option (List ℕ × ℕ)
split_last [] = none
split_last (x ∷ xs) = elim (split_last xs) [
  | none ↦ some ([], x)
  | some (front, last) ↦ some (x ∷ front, last)
]

-- p.inUse[port]
abbrev pub is_in_use : PortAllocator → ℕ → Bool
is_in_use p port = get_or ℕ_discrete port p.in_use false

-- The port and its socket, which is nil if the pool has none for it.
unfoldable pub allocate : PortAllocator → PortAllocator × Option (ℕ × Option String)
unfolding split_last
allocate p = elim (split_last p.free) [
  | none ↦ (p, none)
  | some (front, port) ↦ (
    record p { free = front; in_use = insert ℕ_discrete port true p.in_use },
    some (port, lookup ℕ_discrete port p.conns),
  )
]

unfoldable pub release : PortAllocator → ℕ → PortAllocator
release p port =
    if is_in_use p port
    then record p { free = p.free ++ port ∷ []; in_use = delete ℕ_discrete port p.in_use }
    else p

-- the loop of `disable`: the first entry that is the port goes
unfoldable pub remove_first : ℕ → List ℕ → List ℕ
remove_first port [] = []
remove_first port (q ∷ qs) = if q == port then qs else q ∷ remove_first port qs

unfoldable pub disable : PortAllocator → ℕ → PortAllocator
unfolding remove_first
disable p port = record p {
  free = remove_first port p.free;
  in_use = delete ℕ_discrete port p.in_use;
}
