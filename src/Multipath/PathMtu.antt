-- ===== src/Multipath/PathMtu.antt =====
-- The path MTU probes of pkg/wstransport/pathmtu.go. A nonce has `path_probe_size` bytes, a target is a
-- 16-bit number.
use ntwire.Base.{
  ℕ, zero, suc, ◌+◌, ◌-◌, ◌*◌, ◌/◌, ◌%◌, ◌^◌, ◌≤◌, ◌<◌, ◌≡◌, refl, ap, subst, ◌∙◌, Bool, true,
  false, not, ◌&&◌, ◌||◌, Option, none, some, [], ◌∷◌, ◌++◌, arith, length, take, drop,
  length-append, length-take, take-length-append, drop-length-append, ltb, leb, ◌==◌, if◌then◌else◌,
}
use ntwire.Relay.Udp.Frames.{Bytes, path_probe_size, max_relay_datagram, encode_control_frame}
use ntwire.Multipath.Scheduler.{min_path_mtu_probe}

pub record PathMtuProbe : Type 0 where
  pub nonce : Bytes
  pub target : ℕ

abbrev pub frame_path_mtu_probe : ℕ
frame_path_mtu_probe = 9

abbrev pub frame_path_mtu_ack : ℕ
frame_path_mtu_ack = 10

abbrev pub control_header_len : ℕ
control_header_len = 5

-- 0 ends the search
unfoldable pub next_path_mtu_probe : ℕ → ℕ
next_path_mtu_probe current =
    if current == 1200 then 1400 else if current == 1400 then max_relay_datagram else 0

-- binary.LittleEndian.PutUint16
abbrev pub uint16_le : ℕ → Bytes
uint16_le n = n % 256 ∷ (n / 256) % 256 ∷ []

-- binary.LittleEndian.Uint16, where there are two bytes
abbrev pub read_uint16_le : Bytes → ℕ
read_uint16_le (lo ∷ hi ∷ b) = lo + hi * 256
read_uint16_le _ = 0

unfoldable pub zeros : ℕ → Bytes
zeros zero = []
zeros (suc n) = 0 ∷ zeros n

abbrev pub is_target : ℕ → Bool
is_target n = leb min_path_mtu_probe n && leb n max_relay_datagram

-- `none` for nil
unfoldable pub encode_path_mtu_probe : Bytes → ℕ → Option Bytes
unfolding zeros
encode_path_mtu_probe nonce target =
    if ltb target min_path_mtu_probe || ltb max_relay_datagram target
    then none
    else some
        (nonce ++ (uint16_le target ++ zeros (target - control_header_len - (path_probe_size + 2))))

abbrev pub parsed : Bytes → PathMtuProbe
parsed b = record {
  nonce = take path_probe_size b;
  target = read_uint16_le (drop path_probe_size b);
}

abbrev pub empty_probe : PathMtuProbe
empty_probe = record { nonce = zeros path_probe_size; target = 0 }

unfoldable pub decode_path_mtu_probe : Bytes → PathMtuProbe × Bool
unfolding zeros
decode_path_mtu_probe b = if ltb (length b) (path_probe_size + 2) then (empty_probe, false) else (
  parsed b,
  is_target (parsed b).target && length b == (parsed b).target - control_header_len,
)

unfoldable pub encode_path_mtu_ack : Bytes → ℕ → Bytes
encode_path_mtu_ack nonce target = nonce ++ uint16_le target

unfoldable pub decode_path_mtu_ack : Bytes → PathMtuProbe × Bool
unfolding zeros
decode_path_mtu_ack b =
    if not (length b == path_probe_size + 2)
    then (empty_probe, false)
    else (parsed b, is_target (parsed b).target)

length-zeros : (n : ℕ) → length (zeros n) ≡ n
unfolding zeros
length-zeros zero = refl
length-zeros (suc n) = ap suc (length-zeros n)

-- What stands behind a nonce is read back.
parsed-append :
    (nonce rest : Bytes) (target : ℕ)
    → length nonce ≡ path_probe_size
    → target < 2 ^ 16
    → parsed (nonce ++ (uint16_le target ++ rest)) ≡ record { nonce = nonce; target = target }
parsed-append nonce rest target n t =
    let front : take path_probe_size (nonce ++ (uint16_le target ++ rest)) ≡ nonce =
      subst (λ k. take k (nonce ++ (uint16_le target ++ rest)) ≡ nonce) n
        (take-length-append nonce (uint16_le target ++ rest)) in
    let back : drop path_probe_size (nonce ++ (uint16_le target ++ rest))
        ≡ uint16_le target ++ rest =
      subst (λ k. drop k (nonce ++ (uint16_le target ++ rest)) ≡ uint16_le target ++ rest) n
        (drop-length-append nonce (uint16_le target ++ rest)) in
    rw (front, back) (ap (λ k. record { nonce = nonce; target = k }) (omega (arith, t)))

-- For a nonce of twelve bytes and a target from 1200 to 1500, the probe is encoded, its control frame
-- has exactly the target's length, and the probe and the acknowledgement of it decode to that nonce and
-- target.
pub path_mtu_exchange :
    (nonce : Bytes) (target : ℕ)
    → length nonce ≡ path_probe_size
    → min_path_mtu_probe ≤ target
    → target ≤ max_relay_datagram
    → (b : Bytes) × (encode_path_mtu_probe nonce target ≡ some b)
      × (length (encode_control_frame frame_path_mtu_probe b) ≡ target)
      × (decode_path_mtu_probe b ≡ (record { nonce = nonce; target = target }, true))
      × (decode_path_mtu_ack (encode_path_mtu_ack nonce target)
          ≡ (record { nonce = nonce; target = target }, true))
unfolding encode_path_mtu_probe decode_path_mtu_probe encode_path_mtu_ack decode_path_mtu_ack
path_mtu_exchange nonce target n low high = (b, made, wire, probe, ack)
  where
    pad : Bytes
    pad = zeros (target - control_header_len - (path_probe_size + 2))

    b : Bytes
    b = nonce ++ (uint16_le target ++ pad)

    sent : PathMtuProbe
    sent = record { nonce = nonce; target = target }

    made : encode_path_mtu_probe nonce target ≡ some b
    made = ground arith

    size : length b ≡ target - control_header_len
    size = omega (
      arith,
      length-append nonce (uint16_le target ++ pad),
      length-zeros (target - control_header_len - (path_probe_size + 2)),
    )

    wire : length (encode_control_frame frame_path_mtu_probe b) ≡ target
    wire = omega (arith, size)

    read : parsed b ≡ sent
    read = parsed-append nonce pad target n (omega arith)

    probe : decode_path_mtu_probe b ≡ (sent, true)
    probe =
        let long : ltb (length b) (path_probe_size + 2) ≡ false = ground (arith, size) in
        let fits : (is_target target && length b == target - control_header_len) ≡ true =
          ground (arith, size) in
        ap
          (λ x. if x then (empty_probe, false) else (
            parsed b,
            is_target (parsed b).target && length b == (parsed b).target - control_header_len,
          ))
          long
        ∙ ap
            (λ (q : PathMtuProbe).
              (q, is_target q.target && length b == q.target - control_header_len))
            read
        ∙ ap (λ x. (sent, x)) fits

    answer : Bytes
    answer = nonce ++ uint16_le target

    ack : decode_path_mtu_ack (encode_path_mtu_ack nonce target) ≡ (sent, true)
    ack =
        let exact : not (length answer == path_probe_size + 2) ≡ false =
          ground (arith, length-append nonce (uint16_le target)) in
        let fits : is_target target ≡ true = ground arith in
        ap
          (λ x.
            if x then (empty_probe, false) else (parsed answer, is_target (parsed answer).target))
          exact
        ∙ ap (λ (q : PathMtuProbe). (q, is_target q.target))
            (parsed-append nonce [] target n (omega arith))
        ∙ ap (λ x. (sent, x)) fits

-- A probe that is accepted is longer on the wire than the answer to it.
pub path_mtu_no_amplification :
    (b : Bytes)
    → (decode_path_mtu_probe b).1 ≡ true
    → length (
        encode_control_frame frame_path_mtu_ack (
          encode_path_mtu_ack (decode_path_mtu_probe b).0.nonce (decode_path_mtu_probe b).0.target))
      < length (encode_control_frame frame_path_mtu_probe b)
unfolding decode_path_mtu_probe encode_path_mtu_ack
path_mtu_no_amplification b e = ground (
  arith,
  length-append (take path_probe_size b) (uint16_le (parsed b).target),
  length-take path_probe_size b,
  e,
)
