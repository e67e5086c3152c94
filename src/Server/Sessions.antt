-- ===== src/Server/Sessions.antt =====
-- The sessions of a server, `Sessions` of pkg/server/session.go. Every method holds the mutex and is
-- one step, given the clock's reading. `canonical` stands for CanonicalPublicKey of pkg/wgnet,
-- which calls another library. The identifiers that `token` draws are arguments. What is only stored (client
-- information, tunnels, groups, measurements) is `details`.
pub mod Lookups
use ntwire.Base.{
  min, max, ℕ, zero, suc, ◌+◌, ◌-◌, ◌*◌, ◌/◌, ◌%◌, ◌^◌, ◌≤◌, ◌<◌, String, ◌≡◌, refl, sym, ap, subst,
  ◌∙◌, ◌≢◌, ◌↔◌, ◌⊎◌, inl, inr, ite, Bool, true, false, not, ◌&&◌, ◌||◌, Option, none, some, Memᴰ,
  List, [], ◌∷◌, ◌++◌, map, append_assoc, append-nil, arith, dec_lt, dec_le, ℕ_discrete, length,
  take, drop, length-append, take-append-drop, length-take, length-drop, take-length-append,
  drop-length-append, bit, count, count-append, Memᴰ-append_right, Map, tally, lookup, delete,
  insert, lookup-delete, lookup-insert, get_or, has, IsMap, delete-IsMap, insert-IsMap,
  delete_absent, tally-delete, length-delete, tally-insert_absent, tally-insert_present, bit-has-le,
  lookup-head, tally-delete-le, length-delete-le, length-insert-le, tally-insert-le, tally_all,
  length-insert_absent, length-le-insert, ◌>>=◌, ◌>>◌, guard, ltb, leb, ◌==◌, if◌then◌else◌,
  Bool-cases, Option-cases, string_discrete, test, refuted,
}

pub record Session (Details : Type 0) : Type 0 where
  pub id : String
  pub token : String
  pub method : String
  pub identity : String
  pub wireguard_public_key : String
  pub details : Details
  pub expires : ℕ

pub record CreateParams (Details : Type 0) : Type 0 where
  pub method : String
  pub identity : String
  pub wireguard_public_key : String
  pub details : Details
  pub ttl : ℕ

-- key, err := CanonicalPublicKey(k): the key, or what it was
abbrev pub canonical_or_same : (String → Option String) → String → String
canonical_or_same canonical key = elim (canonical key) [ none ↦ key | some c ↦ c ]

module _ {Details : Type 0} where
  -- now.After(v.Expires)
  abbrev pub is_expired : ℕ → Session Details → Bool
  is_expired now v = ltb v.expires now

  unfoldable pub create :
      (String → Option String)
      → ℕ
      → String
      → String
      → CreateParams Details
      → Map String (Session Details)
      → Map String (Session Details) × Session Details
  create canonical now id token p s =
      let v : Session Details = record {
        id = id;
        token = token;
        method = p.method;
        identity = p.identity;
        wireguard_public_key = canonical_or_same canonical p.wireguard_public_key;
        details = p.details;
        expires = now + p.ttl;
      } in
      (insert string_discrete token v s, v)

  -- the loops that return the first live session that passes a test
  unfoldable pub find_live :
      ℕ → (Session Details → Bool) → Map String (Session Details) → Option (Session Details)
  find_live now fits [] = none
  find_live now fits ((t, v) ∷ rest) =
      let later = find_live now fits rest in
      if is_expired now v then later else if fits v then some v else later

  -- key != "" && existing == key
  abbrev pub has_key : (String → Option String) → String → Session Details → Bool
  has_key canonical key v =
      not (test (string_discrete key ""))
      && test (string_discrete (canonical_or_same canonical v.wireguard_public_key) key)

  unfoldable pub find_wireguard_public_key :
      (String → Option String)
      → ℕ
      → String
      → Map String (Session Details)
      → Option (Session Details)
  find_wireguard_public_key canonical now key s =
      find_live now (has_key canonical (canonical_or_same canonical key)) s

  unfoldable pub get : ℕ → String → Map String (Session Details) → Option (Session Details)
  get now t s = elim (lookup string_discrete t s) [
    | none ↦ none
    | some v ↦ if is_expired now v then none else some v
  ]

  abbrev pub has_id : String → Session Details → Bool
  has_id id v = test (string_discrete v.id id)

  unfoldable pub find_id : ℕ → String → Map String (Session Details) → Option (Session Details)
  find_id now id s = find_live now (has_id id) s

  unfoldable pub delete_session :
      String → Map String (Session Details) → Map String (Session Details)
  delete_session t s = delete string_discrete t s

  unfoldable pub delete_by_id :
      ℕ
      → String
      → Map String (Session Details)
      → Map String (Session Details) × Option (Session Details)
  delete_by_id now id s = elim (find_live now (has_id id) s) [
    | none ↦ (s, none)
    | some v ↦ (delete string_discrete v.token s, some v)
  ]

  unfoldable pub count_identity : ℕ → String → String → Map String (Session Details) → ℕ
  count_identity now method identity [] = 0
  count_identity now method identity ((t, v) ∷ rest) =
      let later = count_identity now method identity rest in
      if is_expired now v
      then later
      else if test (string_discrete v.method method) && test (string_discrete v.identity identity)
      then suc later
      else later

  -- the sessions that stay, and the dead ones for the owner of their resources
  unfoldable pub reap :
      ℕ → Map String (Session Details) → Map String (Session Details) × List (Session Details)
  reap now [] = ([], [])
  reap now ((t, v) ∷ rest) =
      let later = reap now rest in
      (
        if is_expired now v then later.0 else (t, v) ∷ later.0,
        if is_expired now v then v ∷ later.1 else later.1,
      )

  unfoldable pub all : Map String (Session Details) → List (Session Details)
  all [] = []
  all ((t, v) ∷ rest) = v ∷ all rest
