-- ===== src/Protocol/Payload.antt =====
-- The signed payloads of pkg/protocol/protocol.go. A Go string is the list of its bytes.
pub mod Binding
use Prim.Native.Char.{code}
use Prim.Native.String
use ntwire.Base.{
  min, max, ℕ, zero, suc, ◌+◌, ◌-◌, ◌*◌, ◌/◌, ◌%◌, ◌^◌, ◌≤◌, ◌<◌, String, ◌≡◌, refl, sym, ap, subst,
  ◌∙◌, ◌≢◌, ◌↔◌, ◌⊎◌, inl, inr, ite, Bool, true, false, not, ◌&&◌, ◌||◌, Option, none, some, Memᴰ,
  List, [], ◌∷◌, ◌++◌, map, arith, dec_lt, dec_le, ℕ_discrete, length, take, drop, length-append,
  take-append-drop, length-take, length-drop, take-length-append, drop-length-append, count,
  count-append, bit, Memᴰ-append_right, Map, tally, lookup, delete, insert, lookup-delete,
  lookup-insert, get_or, has, IsMap, delete-IsMap, insert-IsMap, delete_absent, tally-delete,
  length-delete, tally-insert_absent, tally-insert_present, bit-has-le, lookup-head,
  tally-delete-le, length-delete-le, length-insert-le, tally-insert-le, tally_all,
  length-insert_absent, length-le-insert, ltb, leb, ◌==◌, if◌then◌else◌, Bool-cases, Option-cases,
  string_discrete, test,
}

abbrev pub Bytes : Type 0
Bytes = List ℕ

-- the bytes of an ASCII text
abbrev pub ascii : String → Bytes
ascii String.[] = []
ascii (String.◌∷◌ c s) = code c ∷ ascii s

abbrev pub version : ℕ
version = 1

abbrev pub max_field : ℕ
max_field = 2 ^ 20

-- binary.Write(&b, binary.BigEndian, uint32(n))
unfoldable pub uint32_be : ℕ → Bytes
uint32_be n = (n / 2 ^ 24) % 256 ∷ (n / 2 ^ 16) % 256 ∷ (n / 2 ^ 8) % 256 ∷ n % 256 ∷ []

-- the loop over the fields; nothing for a field that is too large
unfoldable pub write_fields : List Bytes → Option Bytes
unfolding uint32_be
write_fields [] = some []
write_fields (f ∷ fs) =
    let rest = write_fields fs in
    if ltb max_field (length f)
    then none
    else elim rest [ none ↦ none | some b ↦ some (uint32_be (length f) ++ (f ++ b)) ]

-- the domain separator and the fields
unfoldable pub write_payload : Bytes → ℕ → List Bytes → Option Bytes
write_payload domain v fields =
    if not (v == version)
    then none
    else elim (write_fields fields) [ none ↦ none | some b ↦ some (domain ++ b) ]

-- The fields of a RelayRegisterRequest that are signed.
pub record RelayRegisterRequest : Type 0 where
  pub version : ℕ
  pub public_key : Bytes
  pub name : Bytes
  pub timestamp : Bytes
  pub nonce : Bytes

abbrev pub relay_domain : Bytes
relay_domain = ascii "ntwire-relay-register-v1" ++ 0 ∷ []

abbrev pub register_fields : RelayRegisterRequest → List Bytes
register_fields r = r.public_key ∷ r.name ∷ r.timestamp ∷ r.nonce ∷ []

unfoldable pub relay_register_payload : RelayRegisterRequest → Option Bytes
relay_register_payload r = write_payload relay_domain r.version (register_fields r)

pub record ClientInfo : Type 0 where
  pub os : Bytes
  pub arch : Bytes
  pub hostname : Bytes
  pub username : Bytes
  pub client_version : Bytes
  pub extra : List (Bytes × Bytes)

-- The fields of an AuthRequest that are signed.
pub record AuthRequest : Type 0 where
  pub version : ℕ
  pub public_key : Bytes
  pub wireguard_public_key : Bytes
  pub timestamp : Bytes
  pub nonce : Bytes
  pub info : ClientInfo

-- the order of `sort.Strings`
unfoldable pub le_bytes : Bytes → Bytes → Bool
le_bytes [] t = true
le_bytes (a ∷ s) [] = false
le_bytes (a ∷ s) (b ∷ t) = if ltb a b then true else a == b && le_bytes s t

insert_extra : Bytes × Bytes → List (Bytes × Bytes) → List (Bytes × Bytes)
unfolding le_bytes
insert_extra e [] = e ∷ []
insert_extra e (f ∷ fs) =
    let rest = insert_extra e fs in if le_bytes e.0 f.0 then e ∷ f ∷ fs else f ∷ rest

unfoldable pub sort_extra : List (Bytes × Bytes) → List (Bytes × Bytes)
unfolding insert_extra
sort_extra [] = []
sort_extra (e ∷ es) = insert_extra e (sort_extra es)

abbrev pub extra_fields : List (Bytes × Bytes) → List Bytes
extra_fields [] = []
extra_fields ((k, v) ∷ es) = k ∷ v ∷ extra_fields es

abbrev pub auth_domain : Bytes
auth_domain = ascii "ntwire-auth-v1" ++ 0 ∷ []

abbrev pub signing_fields : AuthRequest → List Bytes
signing_fields r =
    r.public_key
    ∷ r.wireguard_public_key
    ∷ r.timestamp
    ∷ r.nonce
    ∷ r.info.os
    ∷ r.info.arch
    ∷ r.info.hostname
    ∷ r.info.username
    ∷ r.info.client_version
    ∷ extra_fields (sort_extra r.info.extra)

unfoldable pub signing_payload : AuthRequest → Option Bytes
unfolding sort_extra
signing_payload r = write_payload auth_domain r.version (signing_fields r)
