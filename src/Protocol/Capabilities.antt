-- ===== src/Protocol/Capabilities.antt =====
-- Optional features by name, pkg/protocol/protocol.go.
use ntwire.Base.{
  String, Bool, false, not, ◌||◌, Option, none, some, List, [], ◌∷◌, if◌then◌else◌, string_discrete,
  test,
}

unfoldable pub has_capability : List String → String → Bool
has_capability [] want = false
has_capability (got ∷ caps) want = test (string_discrete got want) || has_capability caps want

pub data CapabilityError : Type 0 where
  empty_name : CapabilityError
  not_supported : String → CapabilityError

-- nil is `none`
unfoldable pub validate_required_capabilities : List String → List String → Option CapabilityError
validate_required_capabilities supported [] = none
validate_required_capabilities supported (want ∷ required) =
    if test (string_discrete want "")
    then some empty_name
    else if not (has_capability supported want)
    then some (not_supported want)
    else validate_required_capabilities supported required

abbrev pub multipath_v3 : String
multipath_v3 = "multipath-v3"

abbrev pub native_wireguard_relay : String
native_wireguard_relay = "native-wireguard-relay-v1"
