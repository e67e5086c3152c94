-- ===== src/Multipath/Scheduler.antt =====
-- `Scheduler` of pkg/wstransport/multipath.go. Each method is one step, given the clock's reading: what
-- it reads and writes is behind the mutex or one atomic pointer. `penalty` stands for the float
-- arithmetic of `score`, from a loss to a duration. Logging is left out.
pub mod Paths
pub mod Selection
pub mod Sound
pub mod Steps
pub mod Failover
use Prim.Native.Nat.{Ordering}
use Prim.Native.String.{compare as compare_text}
use ntwire.Base.{
  min, max, ℕ, zero, suc, ◌+◌, ◌-◌, ◌*◌, ◌/◌, ◌%◌, ◌^◌, ◌≤◌, ◌<◌, String, ◌≡◌, refl, sym, ap, subst,
  ◌∙◌, ◌≢◌, ◌↔◌, ◌⊎◌, inl, inr, ite, Bool, true, false, not, ◌&&◌, ◌||◌, Option, none, some, Memᴰ,
  List, [], ◌∷◌, ◌++◌, map, append_assoc, append-nil, arith, dec_lt, dec_le, ℕ_discrete, length,
  take, drop, set, length-set, length-append, take-append-drop, length-take, length-drop,
  take-length-append, drop-length-append, bit, count, count-append, Memᴰ-append_right, Map, tally,
  lookup, delete, insert, lookup-delete, lookup-insert, get_or, has, IsMap, delete-IsMap,
  insert-IsMap, delete_absent, tally-delete, length-delete, tally-insert_absent,
  tally-insert_present, bit-has-le, lookup-head, tally-delete-le, length-delete-le,
  length-insert-le, tally-insert-le, tally_all, length-insert_absent, length-le-insert, ◌>>=◌, ◌>>◌,
  guard, ltb, leb, ◌==◌, if◌then◌else◌, Bool-cases, Option-cases, string_discrete, test, refuted,
}
use ntwire.Relay.Udp.Frames.{max_relay_datagram}
use ntwire.Multipath.Transports.{PathKind, path_wss, normalize_transport_name}
use ntwire.Base.{is_text}
use ntwire.Multipath.Candidate.{Candidate, Loss, new_candidate, probed, failed_carrier, activated}

pub record Scheduler : Type 0 where
  pub candidates : Map String Candidate
  pub forced : Option String
  pub primary : Option String

unfoldable pub new_scheduler : Scheduler
new_scheduler = record { candidates = []; forced = none; primary = none }

abbrev pub candidate_of : String → Scheduler → Option Candidate
candidate_of name s = lookup string_discrete name s.candidates

-- A change of the candidate behind a pointer, if there is one.
unfoldable pub on_candidate : String → (Candidate → Candidate) → Scheduler → Scheduler
on_candidate name f s = elim (candidate_of name s) [
  | none ↦ s
  | some p ↦ record s { candidates = insert string_discrete name (f p) s.candidates }
]

unfoldable pub register : String → PathKind → Scheduler → Scheduler
register name kind s = elim (candidate_of name s) [
  | none ↦ record s {
    candidates = insert string_discrete name (new_candidate name kind) s.candidates;
  }
  | some p ↦ record s {
    candidates = insert string_discrete name (record p { kind = kind }) s.candidates;
  }
]

abbrev pub is_stream : PathKind → Bool
is_stream path_wss = true
is_stream _ = false

unfoldable pub requires_active_probe : String → Scheduler → Bool
requires_active_probe name s = elim (candidate_of name s) [
  | none ↦ false
  | some p ↦ not (is_stream p.kind)
]

-- s.primary.CompareAndSwap(nil, name)
abbrev pub or_first : Option String → String → Option String
or_first none name = some name
or_first (some cur) name = some cur

unfoldable pub activate_carrier : String → ℕ → Scheduler → Scheduler
unfolding on_candidate
activate_carrier name now s = elim (candidate_of name s) [
  | none ↦ s
  | some p ↦ record (on_candidate name (activated now) s) { primary = or_first s.primary name }
]

unfoldable pub probe_result : String → ℕ → Bool → ℕ → Scheduler → Scheduler
unfolding on_candidate
probe_result name rtt ok now s = on_candidate name (probed rtt ok now) s

unfoldable pub carrier_failure : String → Scheduler → Scheduler
unfolding on_candidate
carrier_failure name s = on_candidate name failed_carrier s

-- controlSending.CompareAndSwap(false, true)
unfoldable pub reserve_control_send : String → Scheduler → Scheduler × Bool
unfolding on_candidate
reserve_control_send name s = elim (candidate_of name s) [
  | none ↦ (s, false)
  | some p ↦ (on_candidate name (λ q. record q { control_sending = true }) s, not p.control_sending)
]

unfoldable pub finish_control_send : String → Scheduler → Scheduler
unfolding on_candidate
finish_control_send name s = on_candidate name (λ q. record q { control_sending = false }) s

-- two atomic.Uint64
unfoldable pub record_duplication : String → ℕ → Bool → Scheduler → Scheduler
unfolding on_candidate
record_duplication name n allowed s =
    on_candidate name
      (λ p.
        if allowed
        then record p { duplicated_bytes = (p.duplicated_bytes + n) % 2 ^ 64 }
        else record p {
          duplication_suppressed_bytes = (p.duplication_suppressed_bytes + n) % 2 ^ 64;
        })
      s

abbrev pub min_path_mtu_probe : ℕ
min_path_mtu_probe = 1200

unfoldable pub report_datagram_mtu : String → ℕ → Scheduler → Scheduler
unfolding on_candidate
report_datagram_mtu name mtu s =
    if ltb mtu min_path_mtu_probe || ltb max_relay_datagram mtu
    then s
    else on_candidate name
        (λ p. if ltb p.datagram_mtu mtu then record p { datagram_mtu = mtu } else p) s

unfoldable pub set_forced : String → Scheduler → Scheduler
set_forced name s =
    let norm = normalize_transport_name name in
    record s { forced = if is_text norm "" then none else some norm }

-- "" for nil
abbrev pub text_of : Option String → String
text_of none = ""
text_of (some name) = name

-- the candidates of the map, in its order
abbrev pub values : Map String Candidate → List Candidate
values [] = []
values ((k, p) ∷ m) = p ∷ values m

unfoldable pub healthy_ones : List Candidate → List Candidate
healthy_ones [] = []
healthy_ones (p ∷ ps) = let rest = healthy_ones ps in if p.healthy then p ∷ rest else rest

unfoldable pub find_name : String → List Candidate → Option Candidate
find_name name [] = none
find_name name (p ∷ ps) = if is_text p.name name then some p else find_name name ps

unfoldable pub find_candidate : List Candidate → String → Option Candidate
unfolding find_name
find_candidate paths name = if is_text name "" then none else find_name name paths

abbrev pub text_less : String → String → Bool
text_less a b = elim (compare_text a b) [ Ordering.lt ↦ true | _ ↦ false ]

pub record Selected : Type 0 where
  pub primary : String
  pub alternate : String
  pub duplicate : Bool

abbrev pub nothing_selected : Selected
nothing_selected = record { primary = ""; alternate = ""; duplicate = false }

abbrev pub alone : String → Selected
alone name = record { primary = name; alternate = ""; duplicate = false }

-- the candidate of that name whose last success is not the zero time
unfoldable pub proven_name : String → List Candidate → Option Candidate
proven_name name [] = none
proven_name name (p ∷ ps) =
    let rest = proven_name name ps in
    if is_text p.name name then elim p.last_success [ none ↦ rest | some t ↦ some p ] else rest

-- The last incumbent if it is registered, or else the forced path if it was ever reached.
unfoldable pub select_degraded : Scheduler → List Candidate → Selected
unfolding find_name proven_name
select_degraded s registered =
    let escape : Selected =
      if is_text (text_of s.forced) ""
      then nothing_selected
      else elim (proven_name (text_of s.forced) registered) [
        | none ↦ nothing_selected
        | some p ↦ alone p.name
      ] in
    elim s.primary [
      | none ↦ escape
      | some cur ↦ elim (find_name cur registered) [ none ↦ escape | some p ↦ alone p.name ]
    ]

-- the first other path
unfoldable pub other_than : String → List Candidate → Option Candidate
other_than name [] = none
other_than name (p ∷ ps) = if not (is_text p.name name) then some p else other_than name ps

module _ (penalty : Loss → ℕ) where
  abbrev pub score : Candidate → ℕ
  score p = p.rtt + penalty p.loss

  abbrev pub ranks_before : Candidate → Candidate → Bool
  ranks_before p q = if score p == score q then text_less p.name q.name else ltb (score p) (score q)

  unfoldable pub insert_path : Candidate → List Candidate → List Candidate
  insert_path p [] = p ∷ []
  insert_path p (q ∷ qs) =
      let rest = insert_path p qs in if ranks_before q p then q ∷ rest else p ∷ q ∷ qs

  -- sort.Slice
  unfoldable pub sort_paths : List Candidate → List Candidate
  unfolding insert_path
  sort_paths [] = []
  sort_paths (p ∷ ps) = insert_path p (sort_paths ps)

  -- the forced path, the incumbent, or the best
  unfoldable pub choose : Scheduler → Candidate → List Candidate → Candidate
  unfolding find_candidate
  choose s best paths = elim (find_candidate (best ∷ paths) (text_of s.forced)) [
    | some p ↦ p
    | none ↦ elim (find_candidate (best ∷ paths) (text_of s.primary)) [ some p ↦ p | none ↦ best ]
  ]

  -- s.primary.Store, where the name is another
  abbrev pub committed : Scheduler → Candidate → Scheduler
  committed s chosen =
      if is_text chosen.name (text_of s.primary) then s else record s { primary = some chosen.name }

  unfoldable pub select_healthy : Scheduler → Candidate → List Candidate → Scheduler × Selected
  unfolding choose other_than
  select_healthy s best paths =
      let chosen = choose s best paths in
      (
        committed s chosen,
        elim (other_than chosen.name (best ∷ paths)) [
          | none ↦ alone chosen.name
          | some alt ↦
              if ltb 0 chosen.misses
              then record { primary = chosen.name; alternate = alt.name; duplicate = true }
              else alone chosen.name
        ],
      )

  unfoldable pub select_from : Scheduler → List Candidate → List Candidate → Scheduler × Selected
  unfolding select_degraded select_healthy
  select_from s (best ∷ paths) registered = select_healthy s best paths
  select_from s [] [] = (record s { primary = none }, nothing_selected)
  select_from s [] (p ∷ registered) = (s, select_degraded s (p ∷ registered))

  unfoldable pub select : Scheduler → Scheduler × Selected
  unfolding select_from healthy_ones sort_paths
  select s =
      let registered = values s.candidates in
      select_from s (sort_paths (healthy_ones registered)) registered
