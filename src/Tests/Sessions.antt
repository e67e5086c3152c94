-- ===== src/Tests/Sessions.antt =====
-- Inputs for the server's sessions.
use ntwire.Base.{ℕ, String, ◌≡◌, refl, Option, none, [], ◌∷◌, Map, lookup, string_discrete}
use ntwire.Server.Sessions.{Session, CreateParams, get, reap}
use ntwire.Server.Sessions.Lookups.{lookup-reap}

abbrev params : CreateParams ℕ
params = record {
  method = "ssh";
  identity = "me";
  wireguard_public_key = "key";
  details = 0;
  ttl = 60;
}

abbrev none_canonical : String → Option String
none_canonical key = none

abbrev stored : Map String (Session ℕ)
stored =
    (
      "old",
      record {
        id = "i";
        token = "old";
        method = "ssh";
        identity = "me";
        wireguard_public_key = "k";
        details = 1;
        expires = 20;
      },
    )
    ∷ []

lookup-reap_example : lookup string_discrete "old" (reap 30 stored).0 ≡ get 30 "old" stored
unfolding lookup
lookup-reap_example = lookup-reap 30 "old" stored (refl, tt)
