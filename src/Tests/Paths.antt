-- ===== src/Tests/Paths.antt =====
-- Inputs for the multipath scheduler, its duplicate cache and its probes, pkg/wstransport.
use ntwire.Multipath.RateLimiter.{
  ByteRateLimiter, new_byte_rate_limiter, granted, granted_within, end_of, billion,
}
use ntwire.Multipath.Bind.{MultipathBind, IsDelivery, send, send-IsDelivery}
use ntwire.Base.{
  Bool, [], arith, delete, false, inl, insert, length, list_discrete, lookup, refl, refuted, some,
  string_discrete, true, ℕ, ℕ_discrete, ◌*◌, ◌+◌, ◌-◌, ◌<◌, ◌∷◌, ◌≡◌, ◌≤◌,
}
use ntwire.Multipath.Transports.{path_direct, path_udp_relay}
use ntwire.Multipath.Candidate.{Candidate, Loss, new_candidate, probed, note_probe, answer}
use ntwire.Multipath.Candidate.Window.{
  after_probes, after_probes_refines, newest, outcomes, window_loss,
}
use ntwire.Multipath.Scheduler.{
  Scheduler, new_scheduler, register, probe_result, values, select, on_candidate,
}
use ntwire.Multipath.Scheduler.Selection.{Selects, select-Selects}
use ntwire.Multipath.Scheduler.Sound.{IsSound}
use ntwire.Multipath.Scheduler.Steps.{Reach, start, call, registers, probes, scheduler-IsSound}
use ntwire.Multipath.Scheduler.Failover.{
  IsReachable, IsTaken, missed_thrice, select-IsReachable, fail_over,
}
use ntwire.Relay.Udp.Frames.{Bytes, encode_control_frame}
use ntwire.Multipath.Duplicates.{
  new_duplicate_cache, transport_key, seen, Passed, only_repeats_suppressed, seen_key, remember,
  evict_one,
}
use ntwire.Multipath.PathMtu.{
  frame_path_mtu_probe, encode_path_mtu_probe, decode_path_mtu_probe, encode_path_mtu_ack,
  decode_path_mtu_ack, path_mtu_exchange,
}

after_probes_refines_example :
    (after_probes (new_candidate "direct-udp" path_direct) ((5, true, 1) ∷ (0, false, 2) ∷ [])).loss
    ≡ window_loss (newest (outcomes ((5, true, 1) ∷ (0, false, 2) ∷ [])))
after_probes_refines_example =
    after_probes_refines "direct-udp" path_direct (5, true, 1) ((0, false, 2) ∷ [])

abbrev no_penalty : Loss → ℕ
no_penalty l = 0

abbrev one_path : Scheduler
one_path = probe_result "direct-udp" 5 true 1 (register "direct-udp" path_direct new_scheduler)

abbrev two_paths : Scheduler
two_paths = probe_result "udp-relay" 9 true 2 (register "udp-relay" path_udp_relay one_path)

two_paths-Reach : Reach no_penalty two_paths
two_paths-Reach =
    let a = call _ _ start (registers "direct-udp" path_direct new_scheduler) in
    let b =
      call _ _ a (probes "direct-udp" 5 1 true (register "direct-udp" path_direct new_scheduler)) in
    let c = call _ _ b (registers "udp-relay" path_udp_relay one_path) in
    call _ _ c (probes "udp-relay" 9 2 true (register "udp-relay" path_udp_relay one_path))

abbrev direct : Candidate
direct = probed 5 true 1 (new_candidate "direct-udp" path_direct)

abbrev relayed : Candidate
relayed = probed 9 true 2 (new_candidate "udp-relay" path_udp_relay)

scheduler-IsSound_example : IsSound two_paths
scheduler-IsSound_example = scheduler-IsSound no_penalty two_paths two_paths-Reach

select-IsReachable_example : IsReachable two_paths (select no_penalty two_paths).1.primary
select-IsReachable_example = select-IsReachable no_penalty two_paths two_paths-Reach

select-Selects_example :
    Selects no_penalty two_paths (select no_penalty two_paths) (values two_paths.candidates)
unfolding probe_result on_candidate register probed answer note_probe new_candidate insert delete
    list_discrete ℕ_discrete lookup string_discrete new_scheduler
select-Selects_example = select-Selects no_penalty two_paths relayed (inl refl) refl

fail_over_example :
    IsTaken
      (missed_thrice "direct-udp" 7 two_paths)
      "direct-udp"
      (select no_penalty (missed_thrice "direct-udp" 7 two_paths)).1.primary
unfolding probe_result on_candidate register probed answer note_probe new_candidate insert delete
    list_discrete ℕ_discrete lookup string_discrete new_scheduler
fail_over_example =
    fail_over no_penalty two_paths "direct-udp" "udp-relay" direct relayed 7 two_paths-Reach refl
      refl refl (refuted (string_discrete "udp-relay" "direct-udp") refl)

-- a transport packet
abbrev packet : Bytes
packet = 4 ∷ 0 ∷ 0 ∷ 0 ∷ 1 ∷ 2 ∷ 3 ∷ 4 ∷ 5 ∷ 6 ∷ 7 ∷ 8 ∷ 9 ∷ 10 ∷ 11 ∷ 12 ∷ 13 ∷ []

abbrev packet_key : Bytes
packet_key = 1 ∷ 2 ∷ 3 ∷ 4 ∷ 5 ∷ 6 ∷ 7 ∷ 8 ∷ 9 ∷ 10 ∷ 11 ∷ 12 ∷ []

only_repeats_suppressed_example :
    (k : Bytes) × (e : ℕ) × (transport_key packet ≡ some k)
    × (12 < e)
    × Passed (new_duplicate_cache 8 10).ttl k e ((packet, 5) ∷ [])
unfolding seen seen_key remember evict_one transport_key new_duplicate_cache insert delete lookup
    list_discrete ℕ_discrete
only_repeats_suppressed_example = only_repeats_suppressed 8 10 ((packet, 5) ∷ []) packet 12 refl

path_mtu_exchange_example :
    (b : Bytes) × (encode_path_mtu_probe packet_key 1400 ≡ some b)
    × (length (encode_control_frame frame_path_mtu_probe b) ≡ 1400)
    × (decode_path_mtu_probe b ≡ (record { nonce = packet_key; target = 1400 }, true))
    × (decode_path_mtu_ack (encode_path_mtu_ack packet_key 1400)
        ≡ (record { nonce = packet_key; target = 1400 }, true))
path_mtu_exchange_example = path_mtu_exchange packet_key 1400 refl (omega arith) (omega arith)

abbrev limited : ByteRateLimiter
limited = new_byte_rate_limiter 100 0

granted_within_example :
    granted ((60, 0) ∷ (60, 10) ∷ (30, 20) ∷ []) limited * billion
    ≤ (billion + (end_of 0 ((60, 0) ∷ (60, 10) ∷ (30, 20) ∷ []) - 0)) * 100
granted_within_example =
    granted_within 100 0 ((60, 0) ∷ (60, 10) ∷ (30, 20) ∷ []) (omega arith)
      (omega arith, (omega arith, (omega arith, tt)))

abbrev bind_of_two : MultipathBind ℕ
bind_of_two = record {
  scheduler = two_paths;
  paths = ("direct-udp", 1) ∷ ("udp-relay", 2) ∷ [];
  relay_sent_bytes = 0;
  relay_sent_packets = 0;
  dup_limiter = limited;
}

abbrev always : ℕ → Bool
always e = true

send-IsDelivery_example :
    IsDelivery 30
      (packet ∷ [])
      (select no_penalty two_paths).1
      bind_of_two
      (send always 30 (packet ∷ []) no_penalty bind_of_two).1
send-IsDelivery_example =
    send-IsDelivery always 30 (packet ∷ []) no_penalty bind_of_two two_paths-Reach
