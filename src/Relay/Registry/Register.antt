-- ===== src/Relay/Registry/Register.antt =====
-- `Register` of pkg/relay/registry.go: who may claim a tenant name. What Go's time package and
-- golang.org/x/crypto compute is a parameter: reading a timestamp, reading a public key, its
-- fingerprint, and the verdict on a signature. So is the UTF-8 of a text, which the payload holds.
use ntwire.Base.{
  ◌<◌, ℕ, ◌+◌, ◌*◌, ◌≤◌, String, ◌≡◌, refl, ◌∙◌, ◌≢◌, inl, inr, Bool, true, false, ◌&&◌, Option,
  none, some, List, [], ◌∷◌, arith, lookup, leb, ◌==◌, if◌then◌else◌, Option-cases, string_discrete,
  test,
}
use ntwire.AuthLimit.Nonces.{NonceCache, use_nonce}
use ntwire.AuthLimit.Nonces.Bounds.{use_nonce-cases}
use ntwire.AuthLimit.Nonces.Replay.{accepted-recorded, accepted-unseen, use_nonce-recent}
use ntwire.Protocol.Capabilities.{
  validate_required_capabilities, multipath_v3, native_wireguard_relay,
}
use ntwire.Protocol.Payload.{Bytes, version, relay_register_payload}
use ntwire.Relay.Registry.{Registration, Registry}

pub record KeyOps : Type 0 where
  pub parse_timestamp : String → Option ℕ
  pub parse_public : String → Option String
  pub fingerprint : String → String
  pub verify : String → Bytes → String → Bool
  pub utf8 : String → Bytes

pub record RegisterRequest : Type 0 where
  pub version : ℕ
  pub public_key : String
  pub name : String
  pub timestamp : String
  pub nonce : String
  pub signature : String
  pub required_capabilities : List String

pub data ErrorCode : Type 0 where
  invalid_request unsupported_capability clock_skew unknown_key bad_signature replayed_nonce
        relay_name_not_allowed :
      ErrorCode

pub data Checked {ℓ} (A : Type ℓ) : Type ℓ where
  ok : A → Checked A
  rejected : ErrorCode → Checked A

infixl 5 ◌>>=◌ ◌>>◌
abbrev pub ◌>>=◌ {ℓ κ} : {A : Type ℓ} {B : Type κ} → Checked A → (A → Checked B) → Checked B
ok a >>= f = f a
rejected c >>= f = rejected c

abbrev pub ◌>>◌ {κ} : {B : Type κ} → Checked (Unit {0}) → Checked B → Checked B
m >> k = m >>= λ _. k

abbrev pub require : Bool → ErrorCode → Checked (Unit {0})
require true c = ok tt
require false c = rejected c

abbrev pub or_reject {ℓ} : {A : Type ℓ} → Option A → ErrorCode → Checked A
or_reject none c = rejected c
or_reject (some a) c = ok a

abbrev pub is_nil {ℓ} : {A : Type ℓ} → Option A → Bool
is_nil none = true
is_nil (some a) = false

abbrev pub relay_capabilities : List String
relay_capabilities = multipath_v3 ∷ native_wireguard_relay ∷ []

abbrev pub two_minutes : ℕ
two_minutes = 2 * 60 * 1000000000

-- not (time.Since(ts) > 2*time.Minute || time.Until(ts) > 2*time.Minute)
abbrev pub in_window : ℕ → ℕ → Bool
in_window now ts = leb now (ts + two_minutes) && leb ts (now + two_minutes)

module _ (k : KeyOps) where
  open k use {parse_timestamp, parse_public, fingerprint, verify, utf8}

  abbrev pub payload_of : RegisterRequest → Option Bytes
  payload_of req = relay_register_payload (record {
    version = req.version;
    public_key = utf8 req.public_key;
    name = utf8 req.name;
    timestamp = utf8 req.timestamp;
    nonce = utf8 req.nonce;
  })

  -- Up to the signature: the registration of the key, and its fingerprint.
  unfoldable pub authenticate : ℕ → RegisterRequest → Registry → Checked (Registration × String)
  authenticate now req r = do
    require (req.version == version) invalid_request
    require (is_nil (validate_required_capabilities relay_capabilities req.required_capabilities))
        unsupported_capability
    ts ← or_reject (parse_timestamp req.timestamp) clock_skew
    require (in_window now ts) clock_skew
    key ← or_reject (parse_public req.public_key) unknown_key
    reg ← or_reject (lookup string_discrete (fingerprint key) r.by_fingerprint) unknown_key
    payload ← or_reject (payload_of req) bad_signature
    require (verify reg.public_key payload req.signature) bad_signature
    ok (reg, fingerprint key)

  -- The nonce is spent only now.
  spend_nonce :
      RegisterRequest
      → Registration
      → String
      → Registry
      → NonceCache × Bool
      → Registry × Checked (String × String)
  spend_nonce req reg fp r (nonces, false) = (record r { nonces = nonces }, rejected replayed_nonce)
  spend_nonce req reg fp r (nonces, true) = (
    record r { nonces = nonces },
    if test (string_discrete req.name reg.name)
        then ok (reg.name, fp)
        else rejected relay_name_not_allowed,
  )

  conclude :
      ℕ
      → RegisterRequest
      → Registry
      → Checked (Registration × String)
      → Registry × Checked (String × String)
  unfolding spend_nonce
  conclude now req r (rejected c) = (r, rejected c)
  conclude now req r (ok (reg, fp)) = spend_nonce req reg fp r (use_nonce now req.nonce r.nonces)

  unfoldable pub register : ℕ → RegisterRequest → Registry → Registry × Checked (String × String)
  unfolding conclude
  register now req r = conclude now req r (authenticate now req r)

  -- What a claim that is accepted has shown.
  pub record Proven (now : ℕ) (req : RegisterRequest) (r : Registry) (name fp : String)
      : Type 0 where
    pub key : String
    pub reg : Registration
    pub payload : Bytes
    pub ts : ℕ
    pub parsed : parse_public req.public_key ≡ some key
    pub print : fingerprint key ≡ fp
    pub configured : lookup string_discrete fp r.by_fingerprint ≡ some reg
    pub signed_payload : payload_of req ≡ some payload
    pub signed : verify reg.public_key payload req.signature ≡ true
    pub name_is_configured : reg.name ≡ name
    pub name_is_requested : req.name ≡ name
    pub time : parse_timestamp req.timestamp ≡ some ts
    pub recent : (now ≤ ts + two_minutes) × (ts ≤ now + two_minutes)
    pub nonce_named : req.nonce ≢ ""
    pub unseen :
        (t : ℕ) → lookup string_discrete req.nonce r.nonces.seen ≡ some t → t + r.nonces.ttl < now

  -- Signed by a configured key, at a time near the relay's.
  record Authentic (now : ℕ) (req : RegisterRequest) (r : Registry) (reg : Registration)
      (fp : String) : Type 0 where
    key : String
    payload : Bytes
    ts : ℕ
    parsed : parse_public req.public_key ≡ some key
    print : fingerprint key ≡ fp
    configured : lookup string_discrete fp r.by_fingerprint ≡ some reg
    signed_payload : payload_of req ≡ some payload
    signed : verify reg.public_key payload req.signature ≡ true
    time : parse_timestamp req.timestamp ≡ some ts
    recent : (now ≤ ts + two_minutes) × (ts ≤ now + two_minutes)

  authenticate-Authentic :
      (now : ℕ) (req : RegisterRequest) (r : Registry) (reg : Registration) (fp : String)
      → authenticate now req r ≡ ok (reg, fp)
      → Authentic now req r reg fp
  unfolding authenticate
  authenticate-Authentic now req r reg fp e = elim (Option-cases (parse_timestamp req.timestamp)) [
    | inl a ↦ absurd (ground arith)
    | inr (ts, a) ↦ elim (Option-cases (parse_public req.public_key)) [
      | inl b ↦ absurd (ground arith)
      | inr (key, b) ↦
          elim (Option-cases (lookup string_discrete (fingerprint key) r.by_fingerprint)) [
            | inl c ↦ absurd (ground arith)
            | inr (found, c) ↦ elim (Option-cases (payload_of req)) [
              | inl d ↦ absurd (ground arith)
              | inr (payload, d) ↦ record {
                key = key;
                payload = payload;
                ts = ts;
                parsed = b;
                print = ground arith;
                configured = ground arith;
                signed_payload = d;
                signed = ground arith;
                time = a;
                recent = (ground arith, ground arith);
              }
            ]
          ]
    ]
  ]

  conclude-Proven :
      (now : ℕ) (req : RegisterRequest) (r : Registry) (name fp : String)
      (c : Checked (Registration × String))
      → authenticate now req r ≡ c
      → (conclude now req r c).1 ≡ ok (name, fp)
      → Proven now req r name fp
  unfolding conclude spend_nonce
  conclude-Proven now req r name fp (rejected c) a e = absurd (ground arith)
  conclude-Proven now req r name fp (ok (reg, print)) a e =
      let p = authenticate-Authentic now req r reg print a in
      let nonce =
        accepted-unseen now req.nonce r.nonces
          (ground (arith, use_nonce-cases now req.nonce r.nonces)) in
      let same : print ≡ fp = ground (arith, use_nonce-cases now req.nonce r.nonces) in
      record {
        key = p.key;
        reg = reg;
        payload = p.payload;
        ts = p.ts;
        parsed = p.parsed;
        print = p.print ∙ same;
        configured = rw (← same) p.configured;
        signed_payload = p.signed_payload;
        signed = p.signed;
        name_is_configured = ground (arith, use_nonce-cases now req.nonce r.nonces);
        name_is_requested = ground (arith, use_nonce-cases now req.nonce r.nonces);
        time = p.time;
        recent = p.recent;
        nonce_named = nonce.0;
        unseen = nonce.1;
      }

  -- A claim is accepted only with a valid signature by a key that is configured for exactly the
  -- name that the request asks for, with a recent timestamp, and with a nonce that is not empty and
  -- that the cache does not hold from within its ttl.
  pub register-Proven :
      (now : ℕ) (req : RegisterRequest) (r : Registry) (name fp : String)
      → (register now req r).1 ≡ ok (name, fp)
      → Proven now req r name fp
  unfolding register
  register-Proven now req r name fp e =
      conclude-Proven now req r name fp (authenticate now req r) refl e

  conclude-nonces :
      (now : ℕ) (req : RegisterRequest) (r : Registry) (c : Checked (Registration × String))
      → authenticate now req r ≡ c
      → (conclude now req r c).0.nonces ≢ r.nonces
      → (reg : Registration) × (fp : String) × (authenticate now req r ≡ ok (reg, fp))
  unfolding conclude
  conclude-nonces now req r (rejected c) a ne = absurd (ne refl)
  conclude-nonces now req r (ok (reg, fp)) a ne = (reg, fp, a)

  -- The nonce cache changes only for a request with a valid signature: a caller without a
  -- configured key cannot fill it.
  pub register-nonces :
      (now : ℕ) (req : RegisterRequest) (r : Registry)
      → (register now req r).0.nonces ≢ r.nonces
      → (reg : Registration) × (key : String) × (payload : Bytes) × (lookup string_discrete
            (fingerprint key)
            r.by_fingerprint
          ≡ some reg)
        × (payload_of req ≡ some payload)
        × (verify reg.public_key payload req.signature ≡ true)
  unfolding register
  register-nonces now req r ne =
      let (reg, fp, a) = conclude-nonces now req r (authenticate now req r) refl ne in
      let p = authenticate-Authentic now req r reg fp a in
      (reg, p.key, p.payload, rw p.print p.configured, p.signed_payload, p.signed)

  accepted-nonces :
      (now : ℕ) (req : RegisterRequest) (r : Registry) (name fp : String)
      (c : Checked (Registration × String))
      → (conclude now req r c).1 ≡ ok (name, fp)
      → ((conclude now req r c).0.nonces ≡ (use_nonce now req.nonce r.nonces).0)
        × ((use_nonce now req.nonce r.nonces).1 ≡ true)
  unfolding conclude spend_nonce
  accepted-nonces now req r name fp (rejected c) e = absurd (ground arith)
  accepted-nonces now req r name fp (ok (reg, print)) e =
      ground (arith, use_nonce-cases now req.nonce r.nonces)

  -- A request that is accepted cannot be accepted again at once, nor any other request with its
  -- nonce, while the nonce's window runs.
  pub register_replayed :
      (now later : ℕ) (req again : RegisterRequest) (r : Registry) (name fp name' fp' : String)
      → (register now req r).1 ≡ ok (name, fp)
      → again.nonce ≡ req.nonce
      → later ≤ now + (register now req r).0.nonces.ttl
      → (register later again (register now req r).0).1 ≢ ok (name', fp')
  unfolding register
  register_replayed now later req again r name fp name' fp' e same inside = λ f.
      let (nonces, used) = accepted-nonces now req r name fp (authenticate now req r) e in
      let s = (conclude now req r (authenticate now req r)).0 in
      let (_, fresh) = accepted-nonces later again s name' fp' (authenticate later again s) f in
      let recorded : lookup string_discrete req.nonce s.nonces.seen ≡ some now =
        rw nonces (accepted-recorded now req.nonce r.nonces used) in
      let refused = use_nonce-recent later now req.nonce s.nonces recorded inside in ground arith
