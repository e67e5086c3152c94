-- ===== src/Relay/Udp/Frames.antt =====
-- The control frames of the UDP relay, pkg/wstransport/direct.go, and what else it forwards,
-- pkg/wstransport/multipath.go.
use ntwire.Base.{
  ℕ, Bool, ◌&&◌, ◌||◌, Option, none, some, List, ◌∷◌, length, ltb, leb, ◌==◌, if◌then◌else◌,
}

abbrev pub Bytes : Type 0
Bytes = List ℕ

abbrev pub frame_relay_bind : ℕ
frame_relay_bind = 4

abbrev pub frame_relay_bind_ack : ℕ
frame_relay_bind_ack = 5

abbrev pub frame_path_probe : ℕ
frame_path_probe = 6

abbrev pub frame_path_ack : ℕ
frame_path_ack = 7

abbrev pub path_probe_size : ℕ
path_probe_size = 12

abbrev pub max_relay_datagram : ℕ
max_relay_datagram = 1500

-- the magic, 0 and "NTW", before a frame's type and payload
abbrev pub encode_control_frame : ℕ → Bytes → Bytes
encode_control_frame typ payload = 0 ∷ 78 ∷ 84 ∷ 87 ∷ typ ∷ payload

unfoldable pub decode_control_frame : Bytes → Option (ℕ × Bytes)
decode_control_frame (m0 ∷ m1 ∷ m2 ∷ m3 ∷ typ ∷ payload) =
    if m0 == 0 && m1 == 78 && m2 == 84 && m3 == 87 then some (typ, payload) else none
decode_control_frame _ = none

unfoldable pub valid_relay_datagram : Bytes → Bool
valid_relay_datagram b = ltb 0 (length b) && leb (length b) max_relay_datagram

unfoldable pub valid_path_control : ℕ → Bytes → Bool
valid_path_control typ payload =
    (typ == frame_path_probe || typ == frame_path_ack) && length payload == path_probe_size
