-- ===== src/Server/Sessions/Lookups.antt =====
-- What the sessions of pkg/server/session.go promise their callers.
use ntwire.Base.{
  ℕ, ◌+◌, String, ◌≡◌, refl, Option, none, some, [], ◌∷◌, arith, Map, lookup, lookup-insert, IsMap,
  ltb, if◌then◌else◌, string_discrete, test,
}
use ntwire.Server.Sessions.{Session, CreateParams, create, get, reap}

module _ {Details : Type 0} where
  reap-lookup_absent :
      (now : ℕ) (t : String) (s : Map String (Session Details))
      → lookup string_discrete t s ≡ none
      → lookup string_discrete t (reap now s).0 ≡ none
  unfolding reap lookup
  reap-lookup_absent now t [] e = e
  reap-lookup_absent now t ((k, v) ∷ rest) e = ground (arith, reap-lookup_absent now t rest)

  -- With each token stored once, reaping keeps exactly the sessions that have not expired: whatever token is looked up
  -- afterwards, the map holds what `get` found before.
  pub lookup-reap :
      (now : ℕ) (t : String) (s : Map String (Session Details))
      → IsMap string_discrete s
      → lookup string_discrete t (reap now s).0 ≡ get now t s
  unfolding reap get lookup
  lookup-reap now t [] h = refl
  lookup-reap now t ((k, v) ∷ rest) (fresh, h) =
      ground (arith, fresh, lookup-reap now t rest h, reap-lookup_absent now t rest)

  -- A new session is found by its token until it expires, and then by none; sessions with other
  -- tokens are found as before.
  pub get-create :
      (canonical : String → Option String) (now later : ℕ) (id token t : String)
      (p : CreateParams Details) (s : Map String (Session Details))
      → get later t (create canonical now id token p s).0 ≡ (
          if test (string_discrete token t)
          then if ltb (now + p.ttl) later then none else some (create canonical now id token p s).1
          else get later t s)
  unfolding get create
  get-create canonical now later id token t p s =
      ground (arith, lookup-insert string_discrete token t (create canonical now id token p s).1 s)
