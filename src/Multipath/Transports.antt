-- ===== src/Multipath/Transports.antt =====
-- The names of transports, pkg/wstransport/multipath.go.
use ntwire.Base.{is_text}
use ntwire.Base.{Result, String, ◌||◌, if◌then◌else◌}
use ntwire.Base.{ok, err}

pub data PathKind : Type 0 where
  path_wss path_udp_relay path_direct : PathKind

-- string(kind)
abbrev pub kind_name : PathKind → String
kind_name path_wss = "wss"
kind_name path_udp_relay = "udp-relay"
kind_name path_direct = "direct-udp"

unfoldable pub normalize_transport_name : String → String
normalize_transport_name s =
    if is_text s "direct" || is_text s "udp" || is_text s "direct-udp"
    then kind_name path_direct
    else if is_text s "relay" || is_text s "udprelay" || is_text s "udp-relay"
    then kind_name path_udp_relay
    else if is_text s "ws" || is_text s "wss" || is_text s "websocket"
    then kind_name path_wss
    else if is_text s "auto" || is_text s "none" || is_text s ""
    then ""
    else s

-- The error names the text that was given.
unfoldable pub validate_transport_name : String → Result String String
validate_transport_name s =
    let normalized = normalize_transport_name s in
    if is_text normalized ""
      || is_text normalized (kind_name path_direct)
      || is_text normalized (kind_name path_udp_relay)
      || is_text normalized (kind_name path_wss)
    then ok normalized
    else err s
