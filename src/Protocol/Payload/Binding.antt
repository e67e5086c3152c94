-- ===== src/Protocol/Payload/Binding.antt =====
-- A signature binds every field: payloads are equal only if the fields are, and the payloads of
-- the two kinds of request are never equal.
use ntwire.Base.{
  ℕ, ◌^◌, ◌≤◌, ◌<◌, ◌≡◌, refl, sym, ◌∙◌, ◌≢◌, inl, inr, some, List, [], ◌∷◌, ◌++◌, arith, length,
  Option-cases,
}
use ntwire.Protocol.Payload.{
  Bytes, max_field, version, uint32_be, write_fields, write_payload, RelayRegisterRequest,
  relay_domain, register_fields, relay_register_payload, AuthRequest, sort_extra, extra_fields,
  auth_domain, signing_fields, signing_payload,
}

append_injective :
    (xs ys cs bs : Bytes) → length xs ≡ length ys → xs ++ cs ≡ ys ++ bs → (xs ≡ ys) × (cs ≡ bs)
append_injective [] [] cs bs l e = (refl, e)
append_injective [] (y ∷ ys) cs bs l e = absurd (omega arith)
append_injective (x ∷ xs) [] cs bs l e = absurd (omega arith)
append_injective (x ∷ xs) (y ∷ ys) cs bs l e =
    let (p, q) = append_injective xs ys cs bs (omega arith) (ground arith) in (ground arith, q)

uint32_be_injective :
    (m n : ℕ) (cs bs : Bytes)
    → m < 2 ^ 32
    → n < 2 ^ 32
    → uint32_be m ++ cs ≡ uint32_be n ++ bs
    → (m ≡ n) × (cs ≡ bs)
unfolding uint32_be
uint32_be_injective m n cs bs hm hn e = ground arith

write_fields_cons :
    (f : Bytes) (fs : List Bytes) (b : Bytes)
    → write_fields (f ∷ fs) ≡ some b
    → (c : Bytes) × (length f ≤ max_field)
      × (write_fields fs ≡ some c)
      × (b ≡ uint32_be (length f) ++ (f ++ c))
unfolding write_fields
write_fields_cons f fs b e = elim (Option-cases (write_fields fs)) [
  | inl none_there ↦ absurd (ground arith)
  | inr (c, there) ↦ (c, ground arith, there, ground arith)
]

write_fields_injective :
    (fs gs : List Bytes) (b : Bytes) → write_fields fs ≡ some b → write_fields gs ≡ some b → fs ≡ gs
write_fields_injective [] [] b e f = refl
write_fields_injective [] (g ∷ gs) b e f =
    let (c, small, rest, same) = write_fields_cons g gs b f in
    absurd (unfold write_fields uint32_be in (ground arith))
write_fields_injective (f ∷ fs) [] b e g =
    let (c, small, rest, same) = write_fields_cons f fs b e in
    absurd (unfold write_fields uint32_be in (ground arith))
write_fields_injective (f ∷ fs) (g ∷ gs) b e k =
    let (c, small, rest, same) = write_fields_cons f fs b e in
    let (d, small', rest', same') = write_fields_cons g gs b k in
    let (lengths, tails) =
      uint32_be_injective (length f) (length g) (f ++ c) (g ++ d) (omega arith) (omega arith)
        (sym same ∙ same') in
    let (heads, cs) = append_injective f g c d lengths tails in
    let more : fs ≡ gs = write_fields_injective fs gs c rest (rw cs rest') in ground arith

write_payload_fields :
    (domain : Bytes) (v : ℕ) (fs : List Bytes) (b : Bytes)
    → write_payload domain v fs ≡ some b
    → (c : Bytes) × (v ≡ version) × (write_fields fs ≡ some c) × (b ≡ domain ++ c)
unfolding write_payload
write_payload_fields domain v fs b e = elim (Option-cases (write_fields fs)) [
  | inl none_there ↦ absurd (ground arith)
  | inr (c, there) ↦ (c, ground arith, there, ground arith)
]

write_payload_injective :
    (domain : Bytes) (v w : ℕ) (fs gs : List Bytes) (b : Bytes)
    → write_payload domain v fs ≡ some b
    → write_payload domain w gs ≡ some b
    → (v ≡ w) × (fs ≡ gs)
write_payload_injective domain v w fs gs b e f =
    let (c, one, left, same) = write_payload_fields domain v fs b e in
    let (d, one', right, same') = write_payload_fields domain w gs b f in
    let (_, bodies) = append_injective domain domain c d refl (sym same ∙ same') in
    (one ∙ sym one', write_fields_injective fs gs c left (rw bodies right))

-- Two relay registrations with one signed payload agree in the version and in every signed field:
-- key, name, timestamp and nonce.
pub relay_register_payload_binds :
    (r s : RelayRegisterRequest) (b : Bytes)
    → relay_register_payload r ≡ some b
    → relay_register_payload s ≡ some b
    → r ≡ s
unfolding relay_register_payload
relay_register_payload_binds r s b e f =
    let (v, fields) =
      write_payload_injective relay_domain r.version s.version (register_fields r)
        (register_fields s) b e f in
    ground arith

extra_fields_injective :
    (xs ys : List (Bytes × Bytes)) → extra_fields xs ≡ extra_fields ys → xs ≡ ys
extra_fields_injective [] [] e = refl
extra_fields_injective [] ((k, v) ∷ ys) e = cc
extra_fields_injective ((k, v) ∷ xs) [] e = cc
extra_fields_injective ((k, v) ∷ xs) ((l, w) ∷ ys) e = ground (arith, extra_fields_injective xs ys)

-- What a signature on an authentication request vouches for.
pub record SameSigned (r s : AuthRequest) : Type 0 where
  pub version_eq : r.version ≡ s.version
  pub public_key_eq : r.public_key ≡ s.public_key
  pub wireguard_key_eq : r.wireguard_public_key ≡ s.wireguard_public_key
  pub timestamp_eq : r.timestamp ≡ s.timestamp
  pub nonce_eq : r.nonce ≡ s.nonce
  pub os_eq : r.info.os ≡ s.info.os
  pub arch_eq : r.info.arch ≡ s.info.arch
  pub hostname_eq : r.info.hostname ≡ s.info.hostname
  pub username_eq : r.info.username ≡ s.info.username
  pub client_version_eq : r.info.client_version ≡ s.info.client_version
  pub extra_eq : sort_extra r.info.extra ≡ sort_extra s.info.extra

-- Two authentication requests with one signed payload agree in every signed field, the extra
-- information in the order of its keys included.
pub signing_payload_binds :
    (r s : AuthRequest) (b : Bytes)
    → signing_payload r ≡ some b
    → signing_payload s ≡ some b
    → SameSigned r s
unfolding signing_payload
signing_payload_binds r s b e f =
    let (v, fields) =
      write_payload_injective auth_domain r.version s.version (signing_fields r) (signing_fields s)
        b e f in
    let extras : extra_fields (sort_extra r.info.extra) ≡ extra_fields (sort_extra s.info.extra) =
      ground arith in
    record {
      version_eq = v;
      public_key_eq = ground arith;
      wireguard_key_eq = ground arith;
      timestamp_eq = ground arith;
      nonce_eq = ground arith;
      os_eq = ground arith;
      arch_eq = ground arith;
      hostname_eq = ground arith;
      username_eq = ground arith;
      client_version_eq = ground arith;
      extra_eq = extra_fields_injective (sort_extra r.info.extra) (sort_extra s.info.extra) extras;
    }

-- No payload is good for both a relay registration and a client's authentication.
pub payload_domains_disjoint :
    (r : RelayRegisterRequest) (s : AuthRequest) (b : Bytes)
    → relay_register_payload r ≡ some b
    → signing_payload s ≢ some b
unfolding relay_register_payload signing_payload
payload_domains_disjoint r s b e f =
    let (c, one, left, same) =
      write_payload_fields relay_domain r.version (register_fields r) b e in
    let (d, one', right, same') =
      write_payload_fields auth_domain s.version (signing_fields s) b f in
    ground arith
