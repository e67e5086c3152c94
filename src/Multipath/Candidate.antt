-- ===== src/Multipath/Candidate.antt =====
-- A candidate path and the window of its probes, `candidate` of pkg/wstransport/multipath.go. Times
-- and durations are nanoseconds; the zero time is `none`. `Loss` is a float there, the quotient of
-- the failed probes and the probes in the window: here it is the two numbers.
pub mod Window
use ntwire.Base.{
  min, max, ℕ, zero, suc, ◌+◌, ◌-◌, ◌*◌, ◌/◌, ◌%◌, ◌^◌, ◌≤◌, ◌<◌, String, ◌≡◌, refl, sym, ap, subst,
  ◌∙◌, ◌≢◌, ◌↔◌, ◌⊎◌, inl, inr, ite, Bool, true, false, not, ◌&&◌, ◌||◌, Option, none, some, Memᴰ,
  List, [], ◌∷◌, ◌++◌, map, append_assoc, append-nil, arith, dec_lt, dec_le, ℕ_discrete, length,
  take, drop, set, length-set, length-append, take-append-drop, length-take, length-drop,
  take-length-append, drop-length-append, bit, count, count-append, Memᴰ-append_right, Map, tally,
  lookup, delete, insert, lookup-delete, lookup-insert, get_or, has, IsMap, delete-IsMap,
  insert-IsMap, delete_absent, tally-delete, length-delete, tally-insert_absent,
  tally-insert_present, bit-has-le, lookup-head, tally-delete-le, length-delete-le,
  length-insert-le, tally-insert-le, tally_all, length-insert_absent, length-le-insert, ◌>>=◌, ◌>>◌,
  guard, ltb, leb, ◌==◌, if◌then◌else◌, Bool-cases, Option-cases, string_discrete, test, refuted,
}
use ntwire.Multipath.Transports.{PathKind, path_wss}

pub record Loss : Type 0 where
  pub failed : ℕ
  pub probed : ℕ

pub record Candidate : Type 0 where
  pub name : String
  pub kind : PathKind
  pub healthy : Bool
  pub rtt : ℕ
  pub loss : Loss
  pub last_success : Option ℕ
  pub datagram_mtu : ℕ
  pub probes : List Bool
  pub probe_next : ℕ
  pub used : ℕ
  pub misses : ℕ
  pub duplicated_bytes : ℕ
  pub duplication_suppressed_bytes : ℕ
  pub control_sending : Bool

-- len(p.probes)
abbrev pub window_size : ℕ
window_size = 20

unfoldable pub replicate_false : ℕ → List Bool
replicate_false zero = []
replicate_false (suc n) = false ∷ replicate_false n

unfoldable pub new_candidate : String → PathKind → Candidate
new_candidate name kind = record {
  name = name;
  kind = kind;
  healthy = false;
  rtt = 0;
  loss = record { failed = 0; probed = 1 };
  last_success = none;
  datagram_mtu = 1420;
  probes = replicate_false window_size;
  probe_next = 0;
  used = 0;
  misses = 0;
  duplicated_bytes = 0;
  duplication_suppressed_bytes = 0;
  control_sending = false;
}

-- the loop of `loss` over the first probes
unfoldable pub good : List Bool → ℕ
good [] = 0
good (b ∷ bs) = bit b + good bs

unfoldable pub loss_of : Candidate → Loss
loss_of p =
    if p.used == 0
    then record { failed = 1; probed = 1 }
    else record { failed = p.used - good (take p.used p.probes); probed = p.used }

-- the start of `ProbeResult`: the newest result overwrites the oldest
unfoldable pub note_probe : Bool → Candidate → Candidate
note_probe ok p = record p {
  probes = set p.probes p.probe_next ok;
  probe_next = (p.probe_next + 1) % window_size;
  used = if ltb p.used window_size then p.used + 1 else p.used;
}

abbrev pub with_loss : Candidate → Candidate
with_loss p = record p { loss = loss_of p }

-- a probe that was not answered
unfoldable pub miss : Candidate → Candidate
miss p = record p {
  misses = p.misses + 1;
  healthy = if leb 3 (p.misses + 1) then false else p.healthy;
}

unfoldable pub smoothed : ℕ → ℕ → ℕ
smoothed old rtt = if rtt == 0 then old else if old == 0 then rtt else (old * 7 + rtt) / 8

-- a probe that was
unfoldable pub answer : ℕ → ℕ → Candidate → Candidate
answer rtt now p = record p {
  misses = 0;
  healthy = true;
  last_success = some now;
  rtt = smoothed p.rtt rtt;
}

unfoldable pub probed : ℕ → Bool → ℕ → Candidate → Candidate
unfolding note_probe miss answer
probed rtt ok now p =
    with_loss (if ok then answer rtt now (note_probe ok p) else miss (note_probe ok p))

unfoldable pub failed_carrier : Candidate → Candidate
failed_carrier p = record p { healthy = false; misses = 3 }

unfoldable pub activated : ℕ → Candidate → Candidate
activated now p = record p { healthy = true; last_success = some now; misses = 0 }
