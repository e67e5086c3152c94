-- ===== src/Multipath/Bind.antt =====
-- `Send` of `MultipathBind`, pkg/wstransport/multipath.go, for the multipath endpoint. The carrier bind is
-- not modelled: `sent` says for which of its endpoints it takes a batch. The calls of the scheduler are
-- several critical sections; this is a run with no other call between them. Logging is left out.
use ntwire.Base.{
  ℕ, ◌+◌, ◌%◌, ◌^◌, String, ◌≡◌, refl, sym, ap, ◌∙◌, Bool, true, false, not, ◌&&◌, Option, none,
  some, List, [], ◌∷◌, arith, length, Map, lookup, leb, ◌==◌, if◌then◌else◌, string_discrete,
  is_text,
}
use ntwire.Relay.Udp.Frames.{Bytes}
use ntwire.Multipath.Transports.{path_udp_relay, kind_name}
use ntwire.Multipath.Candidate.{Candidate, Loss}
use ntwire.Multipath.Duplicates.{message_type}
use ntwire.Multipath.RateLimiter.{ByteRateLimiter, allow}
use ntwire.Multipath.Scheduler.{
  Scheduler, Selected, candidate_of, select, carrier_failure, record_duplication,
}
use ntwire.Multipath.Scheduler.Sound.{IsProven}
use ntwire.Multipath.Scheduler.Steps.{Reach}
use ntwire.Multipath.Scheduler.Failover.{IsReachable, nowhere, somewhere, select-IsReachable}

pub record MultipathBind (E : Type 0) : Type 0 where
  pub scheduler : Scheduler
  pub paths : Map String E
  pub relay_sent_bytes : ℕ
  pub relay_sent_packets : ℕ
  pub dup_limiter : ByteRateLimiter

pub data SendError : Type 0 where
  no_healthy_candidate : SendError
  not_registered : SendError
  carrier_failed : SendError

-- the loop over the buffers
unfoldable pub size_of : List Bytes → ℕ
size_of [] = 0
size_of (b ∷ bufs) = length b + size_of bufs

abbrev pub is_transport : List Bytes → Bool
is_transport [] = false
is_transport (b ∷ bufs) = leb 4 (length b) && message_type b == 4

-- The state after, the endpoints that the batch was given to, and the error.
abbrev pub Outcome : Type 0 → Type 0
Outcome E = MultipathBind E × List E × Option SendError

module _ {E : Type 0} where
  -- the relay's counters, two atomic.Uint64
  abbrev pub counted : String → List Bytes → MultipathBind E → MultipathBind E
  counted primary bufs m =
      if is_text primary (kind_name path_udp_relay)
      then record m {
        relay_sent_bytes = (m.relay_sent_bytes + size_of bufs) % 2 ^ 64;
        relay_sent_packets = (m.relay_sent_packets + length bufs) % 2 ^ 64;
      }
      else m

  module _ (sent : E → Bool) (now : ℕ) (bufs : List Bytes) where
    -- the copy, where the budget allows it
    unfoldable pub send_second : Selected → E → E → MultipathBind E → Outcome E
    unfolding size_of
    send_second sel first second m =
        let n = size_of bufs in
        let r = allow n now m.dup_limiter in
        let noted = record m {
          scheduler = record_duplication sel.alternate n r.1 m.scheduler;
          dup_limiter = r.0;
        } in
        if r.1
        then (noted, first ∷ second ∷ [], if sent second then none else some carrier_failed)
        else (noted, first ∷ [], none)

    unfoldable pub send_first : Selected → E → MultipathBind E → Outcome E
    unfolding send_second
    send_first sel first m =
        let after = counted sel.primary bufs m in
        if not (sent first)
        then (
          record m { scheduler = carrier_failure sel.primary m.scheduler },
          first ∷ [],
          some carrier_failed,
        )
        else if not (is_transport bufs)
        then (after, first ∷ [], none)
        else if sel.duplicate
        then elim (lookup string_discrete sel.alternate m.paths) [
          | none ↦ (after, first ∷ [], none)
          | some second ↦ send_second sel first second after
        ]
        else (after, first ∷ [], none)

    unfoldable pub send : (Loss → ℕ) → MultipathBind E → Outcome E
    unfolding send_first
    send penalty m =
        let r = select penalty m.scheduler in
        let after = record m { scheduler = r.0 } in
        if is_text r.1.primary ""
        then (after, [], some no_healthy_candidate)
        else elim (lookup string_discrete r.1.primary m.paths) [
          | none ↦ (after, [], some not_registered)
          | some first ↦ send_first r.1 first after
        ]

-- The endpoints that a batch goes to: the selected path, registered and reached before, and beside it
-- the alternate for transport packets while a duplicate is asked for and the budget allows it.
pub data IsDelivery {E : Type 0} (now : ℕ) (bufs : List Bytes) (sel : Selected)
    (m : MultipathBind E) : List E → Type 0 where
  withheld : IsDelivery now bufs sel m []
  once :
      (p : Candidate) (first : E)
      → candidate_of sel.primary m.scheduler ≡ some p
      → IsProven p
      → lookup string_discrete sel.primary m.paths ≡ some first
      → IsDelivery now bufs sel m (first ∷ [])
  twice :
      (p : Candidate) (first second : E)
      → candidate_of sel.primary m.scheduler ≡ some p
      → IsProven p
      → lookup string_discrete sel.primary m.paths ≡ some first
      → lookup string_discrete sel.alternate m.paths ≡ some second
      → is_transport bufs ≡ true
      → sel.duplicate ≡ true
      → (allow (size_of bufs) now m.dup_limiter).1 ≡ true
      → IsDelivery now bufs sel m (first ∷ second ∷ [])

module _ {E : Type 0} (sent : E → Bool) (now : ℕ) (bufs : List Bytes) where
  -- Both branches of a step.
  if-IsDelivery :
      (sel : Selected) (m : MultipathBind E) (c : Bool) (x y : Outcome E)
      → (c ≡ true → IsDelivery now bufs sel m x.1)
      → (c ≡ false → IsDelivery now bufs sel m y.1)
      → IsDelivery now bufs sel m (if c then x else y).1
  if-IsDelivery sel m true x y p q = p refl
  if-IsDelivery sel m false x y p q = q refl

  send_second-IsDelivery :
      (sel : Selected) (first second : E) (m n : MultipathBind E)
      → n.dup_limiter ≡ m.dup_limiter
      → IsDelivery now bufs sel m (first ∷ [])
      → ((allow (size_of bufs) now m.dup_limiter).1 ≡ true
          → IsDelivery now bufs sel m (first ∷ second ∷ []))
      → IsDelivery now bufs sel m (send_second sent now bufs sel first second n).1
  unfolding send_second
  send_second-IsDelivery sel first second m n same one two =
      if-IsDelivery sel m r.1
        (noted, first ∷ second ∷ [], if sent second then none else some carrier_failed)
        (noted, first ∷ [], none)
        (λ e. two (ap (λ l. (allow (size_of bufs) now l).1) (sym same) ∙ e)) (λ _. one)
    where
      r : ByteRateLimiter × Bool
      r = allow (size_of bufs) now n.dup_limiter

      noted : MultipathBind E
      noted = record n {
        scheduler = record_duplication sel.alternate (size_of bufs) r.1 n.scheduler;
        dup_limiter = r.0;
      }

  counted-limiter :
      (primary : String) (m : MultipathBind E)
      → (counted primary bufs m).dup_limiter ≡ m.dup_limiter
  counted-limiter primary m = ground arith

  send_first-IsDelivery :
      (sel : Selected) (p : Candidate) (first : E) (m n : MultipathBind E)
      → n.dup_limiter ≡ m.dup_limiter
      → n.paths ≡ m.paths
      → candidate_of sel.primary m.scheduler ≡ some p
      → IsProven p
      → lookup string_discrete sel.primary m.paths ≡ some first
      → IsDelivery now bufs sel m (send_first sent now bufs sel first n).1
  unfolding send_first
  send_first-IsDelivery sel p first m n limiter paths here proven at =
      step (not (sent first)) (not (is_transport bufs)) sel.duplicate
        (lookup string_discrete sel.alternate n.paths) refl refl refl
    where
      one : IsDelivery now bufs sel m (first ∷ [])
      one = once p first here proven at

      after : MultipathBind E
      after = counted sel.primary bufs n

      step :
          (failed other asked : Bool) (o : Option E)
          → not (is_transport bufs) ≡ other
          → sel.duplicate ≡ asked
          → lookup string_discrete sel.alternate n.paths ≡ o
          → let r : Outcome E =
              if failed
              then (
                record n { scheduler = carrier_failure sel.primary n.scheduler },
                first ∷ [],
                some carrier_failed,
              )
              else if other
              then (after, first ∷ [], none)
              else if asked
              then elim o [
                | none ↦ (after, first ∷ [], none)
                | some second ↦ send_second sent now bufs sel first second after
              ]
              else (after, first ∷ [], none) in
            IsDelivery now bufs sel m r.1
      step true other asked o f g e = one
      step false true asked o f g e = one
      step false false false o f g e = one
      step false false true none f g e = one
      step false false true (some second) f g e =
          send_second-IsDelivery sel first second m after (counted-limiter sel.primary n ∙ limiter)
            one
            (λ allowed.
              twice p first second here proven at
                (ap (lookup string_discrete sel.alternate) (sym paths) ∙ e) (ground (arith, f)) g
                allowed)

  -- After any calls of the scheduler, `Send` gives a batch to no endpoint, to that of the selected path, which
  -- is registered and was reached before, or to that one and the alternate's: the second only for
  -- transport packets, where the scheduler asks for a duplicate and the budget allows it.
  pub send-IsDelivery :
      (penalty : Loss → ℕ) (m : MultipathBind E)
      → Reach penalty m.scheduler
      → IsDelivery now bufs (select penalty m.scheduler).1 m (send sent now bufs penalty m).1
  unfolding send
  send-IsDelivery penalty m reach =
      step (is_text sel.primary "") (lookup string_discrete sel.primary m.paths) refl refl
        (select-IsReachable penalty m.scheduler reach)
    where
      sel : Selected
      sel = (select penalty m.scheduler).1

      after : MultipathBind E
      after = record m { scheduler = (select penalty m.scheduler).0 }

      step :
          (empty : Bool) (o : Option E)
          → is_text sel.primary "" ≡ empty
          → lookup string_discrete sel.primary m.paths ≡ o
          → IsReachable m.scheduler sel.primary
          → let r : Outcome E = if empty then (after, [], some no_healthy_candidate) else elim o [
            | none ↦ (after, [], some not_registered)
            | some first ↦ send_first sent now bufs sel first after
          ] in
            IsDelivery now bufs sel m r.1
      step true o named e r = withheld
      step false none named e r = withheld
      step false (some first) named e (nowhere empty) = absurd (ground (arith, named, empty))
      step false (some first) named e (somewhere p here proven) =
          send_first-IsDelivery sel p first m after refl refl here proven e
