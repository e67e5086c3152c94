-- ===== src/Tests/Registries.antt =====
-- Inputs for the relay's registry.
use ntwire.Base.{
  none, List, ite, String, ◌≡◌, refl, ◌≢◌, ◌↔◌, false, some, [], ◌∷◌, arith, tally, lookup, delete,
  insert, string_discrete, test,
}
use ntwire.Relay.Limits.{Limits}
use ntwire.AuthLimit.Nonces.{new_nonce_cache, use_nonce}
use ntwire.Protocol.Payload.{relay_register_payload, write_payload, write_fields}
use ntwire.Protocol.Capabilities.{validate_required_capabilities}
use ntwire.Relay.Registry.{
  Registration, Agent, Registry, ServerEndpoint, kubernetes, redeem, open_start, open_delivered,
  register_agent, no_tenant,
}
use ntwire.Relay.Registry.Accounting.{IsAccounted}
use ntwire.Relay.Registry.Steps.{here, next, registers, opens, step, Reach-IsAccounted}
use ntwire.Relay.Registry.Redemption.{redeem_once}
use ntwire.Relay.Registry.Capacity.{cap_exceeded, conns_of}
use ntwire.Relay.Registry.Kubernetes.{upsert, remove}
use ntwire.Relay.Registry.Kubernetes.History.{Op, upserts, removes, run, claimed, in_service_iff}
use ntwire.Relay.Registry.Register.{
  authenticate, Checked, KeyOps, RegisterRequest, register, Proven, register-Proven,
  register_replayed,
}
use ntwire.Relay.Registry.Agents.{
  replace_registrations, replace_registrations-authorized, IsRegistered,
}

abbrev caps : Limits
caps = record {
  handshake_timeout = 5;
  dial_back_timeout = 5;
  max_pending_per_server = 2;
  max_conns_per_server = 1;
  udp_relay_idle_timeout = 60;
  max_udp_relay_sessions_per_server = 2;
  max_registrations_per_minute = 30;
  max_pending_registrations = 10;
}

abbrev acme : Registration
acme = record { name = "acme"; public_key = "key"; listen = "" }

abbrev agent_one : Agent
agent_one = record { id = 1; name = "acme"; fingerprint = "key" }

abbrev empty : Registry
empty = record {
  by_fingerprint = ("key", acme) ∷ [];
  tenants = [];
  pending = [];
  nonces = new_nonce_cache 10 4;
  kubernetes = [];
  conflicts = [];
  limits = caps;
  discovered_usage = [];
}

empty-IsAccounted : IsAccounted empty
unfolding lookup tally
empty-IsAccounted = record { ids = tt; exact = λ n. refl }

abbrev print : String → String
print s = s

abbrev connected : Registry
connected = step print (registers "acme" agent_one) empty

Reach-IsAccounted_example : IsAccounted (step print (opens 3 "acme" (some "c1")) connected)
unfolding step register_agent lookup
Reach-IsAccounted_example =
    Reach-IsAccounted print empty (step print (opens 3 "acme" (some "c1")) connected)
      empty-IsAccounted
      (next (next here (registers "acme" agent_one) tt) (opens 3 "acme" (some "c1")) (λ id e. refl))

abbrev waiting : Registry
waiting = step print (opens 3 "acme" (some "c1")) connected

redeem_once_example :
    (redeem 5 "c1" (step print (registers "acme" agent_one) (redeem 4 "c1" waiting).0)).1 ≡ false
redeem_once_example =
    redeem_once print "c1" 4 5 waiting
      (step print (registers "acme" agent_one) (redeem 4 "c1" waiting).0)
      (next here (registers "acme" agent_one) tt) (tt, grind arith)

abbrev full : Registry
full = record empty {
  tenants = ("acme", record { agent = some agent_one; pending = 1; live = 0 }) ∷ [];
  pending = ("c1", record { name = "acme"; expires = 8 }) ∷ [];
}

full-IsAccounted : IsAccounted full
unfolding lookup tally
full-IsAccounted = record { ids = (refl, tt); exact = λ n. ground arith }

cap_exceeded_example :
    conns_of "acme"
      (open_delivered "acme" (open_start 5 "acme" (some "c2") (redeem 4 "c1" full).0).0)
    ≡ 2
unfolding lookup string_discrete
cap_exceeded_example =
    cap_exceeded 4 5 "c1" "c2" (record { name = "acme"; expires = 8 })
      (record { agent = some agent_one; pending = 1; live = 0 }) agent_one full full-IsAccounted
      refl refl refl (omega arith) refl

abbrev web : ServerEndpoint
web = record {
  hostname = "web.example";
  address = "10.0.0.1:443";
  namespace = "n";
  service = "web";
  tenant = "acme";
  source = kubernetes;
  id = "n/web";
}

-- another Service that claims the same hostname
abbrev mirror : ServerEndpoint
mirror = record {
  hostname = "web.example";
  address = "10.0.0.2:443";
  namespace = "n";
  service = "mirror";
  tenant = "acme";
  source = kubernetes;
  id = "n/mirror";
}

abbrev disputed : List Op
disputed = upserts mirror ∷ upserts web ∷ []

abbrev conceded : List Op
conceded = removes "web.example" "n/web" ∷ disputed

disputed-out : lookup string_discrete "web.example" (run disputed empty).kubernetes ≡ none
unfolding run upsert remove lookup insert delete string_discrete
disputed-out = refl

conceded-back : lookup string_discrete "web.example" (run conceded empty).kubernetes ≡ some mirror
unfolding run upsert remove lookup insert delete string_discrete
conceded-back = refl

in_service_iff_example :
    (lookup string_discrete "web.example" (run conceded empty).kubernetes ≡ some mirror) ↔ (
      (id : String)
      → claimed conceded "web.example" id ≡ ite (string_discrete "n/mirror" id) (some mirror) none)
in_service_iff_example = in_service_iff empty conceded "web.example" mirror refl refl

abbrev keys : KeyOps
keys = record {
  parse_timestamp = λ s. some 100;
  parse_public = λ s. some s;
  fingerprint = λ s. s;
  verify = λ key payload sig. test (string_discrete sig "signed");
  utf8 = λ s. 1 ∷ [];
}

abbrev claim : RegisterRequest
claim = record {
  version = 1;
  public_key = "key";
  name = "acme";
  timestamp = "t";
  nonce = "n1";
  signature = "signed";
  required_capabilities = [];
}

claim-accepted : (register keys 101 claim empty).1 ≡ Checked.ok ("acme", "key")
unfolding register authenticate validate_required_capabilities lookup string_discrete
    relay_register_payload write_payload write_fields use_nonce new_nonce_cache
claim-accepted = refl

-- The cache still holds the nonce, from before its ttl of 10.
abbrev stale : Registry
stale = record empty { nonces = record { ttl = 10; max = 4; seen = ("n1", 50) ∷ [] } }

stale-accepted : (register keys 101 claim stale).1 ≡ Checked.ok ("acme", "key")
unfolding register authenticate validate_required_capabilities lookup string_discrete
    relay_register_payload write_payload write_fields use_nonce new_nonce_cache
stale-accepted = refl

register-Proven_example : Proven keys 101 claim stale "acme" "key"
register-Proven_example = register-Proven keys 101 claim stale "acme" "key" stale-accepted

register_replayed_example :
    (register keys 105 claim (register keys 101 claim empty).0).1 ≢ Checked.ok ("acme", "key")
unfolding register authenticate validate_required_capabilities lookup string_discrete
    relay_register_payload write_payload write_fields use_nonce new_nonce_cache
register_replayed_example =
    register_replayed keys 101 105 claim claim empty "acme" "key" "acme" "key" claim-accepted refl
      (omega arith)

replace_registrations-authorized_example : IsRegistered print (acme ∷ []) "acme" "key"
unfolding replace_registrations lookup string_discrete step register_agent insert delete
replace_registrations-authorized_example =
    replace_registrations-authorized print (acme ∷ []) connected "acme"
      (record no_tenant { agent = some agent_one }) agent_one refl refl
