-- ===== src/Tests/Payloads.antt =====
-- Inputs for the signed payloads of pkg/protocol.
use ntwire.Base.{refl, Option, none, some, [], ◌∷◌}
use ntwire.Protocol.Payload.{
  Bytes, RelayRegisterRequest, AuthRequest, signing_payload, write_fields, write_payload,
}
use ntwire.Protocol.Payload.Binding.{signing_payload_binds, SameSigned}

abbrev registration : RelayRegisterRequest
registration = record {
  version = 1;
  public_key = 1 ∷ 2 ∷ [];
  name = 3 ∷ [];
  timestamp = 4 ∷ [];
  nonce = 5 ∷ 6 ∷ [];
}

abbrev authentication : AuthRequest
authentication = record {
  version = 1;
  public_key = 1 ∷ [];
  wireguard_public_key = 2 ∷ [];
  timestamp = 4 ∷ [];
  nonce = 5 ∷ [];
  info = record {
    os = 7 ∷ [];
    arch = [];
    hostname = [];
    username = [];
    client_version = [];
    extra = (2 ∷ [], 3 ∷ []) ∷ (1 ∷ [], 4 ∷ []) ∷ [];
  };
}

abbrev or_empty : Option Bytes → Bytes
or_empty none = []
or_empty (some b) = b

signing_payload_binds_example : SameSigned authentication authentication
unfolding signing_payload write_payload write_fields
signing_payload_binds_example =
    signing_payload_binds authentication authentication (or_empty (signing_payload authentication))
      refl refl
