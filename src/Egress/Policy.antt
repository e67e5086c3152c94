-- ===== src/Egress/Policy.antt =====
-- Destination policies, pkg/server/policy.go: how one is compiled, how it decides, and how those of
-- the principal and of the tunnel are composed. `to_lower` and `trim_space` stand for the functions
-- of Go's strings, `local_cidrs` for the prefixes that pkg/socks/filter.go has built in. A map with
-- values `true` is a list of its keys; Server.policies is a map by name.
pub mod Floor
use ntwire.Base.{
  Result, min, max, ℕ, zero, suc, ◌+◌, ◌-◌, ◌*◌, ◌/◌, ◌%◌, ◌^◌, ◌≤◌, ◌<◌, String, ◌≡◌, refl, sym,
  ap, subst, ◌∙◌, ◌≢◌, ◌↔◌, ◌⊎◌, inl, inr, ite, Bool, true, false, not, ◌&&◌, ◌||◌, Option, none,
  some, Memᴰ, List, [], ◌∷◌, ◌++◌, map, append_assoc, append-nil, arith, dec_lt, dec_le, ℕ_discrete,
  length, take, drop, length-append, take-append-drop, length-take, length-drop, take-length-append,
  drop-length-append, count, count-append, bit, Memᴰ-append_right, Map, tally, lookup, delete,
  insert, lookup-delete, lookup-insert, get_or, has, IsMap, delete-IsMap, insert-IsMap,
  delete_absent, tally-delete, length-delete, tally-insert_absent, tally-insert_present, bit-has-le,
  lookup-head, tally-delete-le, length-delete-le, length-insert-le, tally-insert-le, tally_all,
  length-insert_absent, length-le-insert, ◌>>=◌, ◌>>◌, guard, ltb, leb, ◌==◌, if◌then◌else◌,
  Bool-cases, Option-cases, string_discrete, test,
}
use ntwire.Base.{ok, err}
use ntwire.Egress.Filter.{Netip, Filter, FilterConfig, new_filter, allowed, member, nonempty}

pub record DestinationPolicy : Type 0 where
  pub filters : List String
  pub domain_filters : List String
  pub asn_filters : List ℕ
  pub only_local : Bool
  pub reverse_filters : Bool
  pub allow_all : Bool
  pub protocols : List String
  pub ports : List ℕ

pub data PolicyError (ParseError : Type 0) : Type 0 where
  bad_filter : ParseError → PolicyError ParseError
  unsupported_protocol : String → PolicyError ParseError
  port_zero : PolicyError ParseError

pub record CompiledPolicy (Addr Prefix : Type 0) : Type 0 where
  pub filter : Filter Addr Prefix
  pub protocols : List String
  pub ports : List ℕ

pub record DestinationContext (Addr : Type 0) : Type 0 where
  pub hostname : String
  pub protocol : String
  pub ip : Addr
  pub port : ℕ

pub data DestinationDecision : Type 0 where
  protocol_denied port_denied destination_denied policy_allowed : DestinationDecision

abbrev pub is_allowed : DestinationDecision → Bool
is_allowed policy_allowed = true
is_allowed protocol_denied = false
is_allowed port_denied = false
is_allowed destination_denied = false

unfoldable pub has_name : String → List String → Bool
has_name a [] = false
has_name a (b ∷ bs) = test (string_discrete a b) || has_name a bs

-- a policy by its name
unfoldable pub policy_named {ℓ} : {A : Type ℓ} → String → List (String × A) → Option A
policy_named name [] = none
policy_named name ((n, p) ∷ ps) =
    if test (string_discrete name n) then some p else policy_named name ps

unfoldable pub compile_ports : {E : Type 0} → List ℕ → Result (PolicyError E) (List ℕ)
compile_ports [] = ok []
compile_ports (v ∷ vs) = do guard (not (v == 0)) port_zero; ports ← compile_ports vs; ok (v ∷ ports)

abbrev pub is_protocol : String → Bool
is_protocol v = test (string_discrete v "tcp") || test (string_discrete v "udp")

abbrev pub lift_filter : {E A : Type 0} → Result E A → Result (PolicyError E) A
lift_filter (ok a) = ok a
lift_filter (err e) = err (bad_filter e)

abbrev pub filter_config : DestinationPolicy → FilterConfig
filter_config p = record {
  only_local = p.only_local;
  cidrs = p.filters;
  domain_suffixes = p.domain_filters;
  asns = p.asn_filters;
  invert = p.reverse_filters;
  allow_all = p.allow_all;
  allow_local_egress = false;
}

module _ {Addr Prefix ParseError : Type 0} (net : Netip Addr Prefix ParseError)
    (to_lower trim_space : String → String) (local_cidrs : List Prefix) where
  unfoldable pub compile_protocols : List String → Result (PolicyError ParseError) (List String)
  compile_protocols [] = ok []
  compile_protocols (v ∷ vs) = do
    guard (is_protocol (to_lower (trim_space v))) (unsupported_protocol (to_lower (trim_space v)))
    protocols ← compile_protocols vs
    ok (to_lower (trim_space v) ∷ protocols)

  unfoldable pub compile_policy :
      DestinationPolicy
      → Option (Addr → Option ℕ)
      → Result (PolicyError ParseError) (CompiledPolicy Addr Prefix)
  compile_policy p asn = do
    f ← lift_filter (new_filter net (filter_config p) asn)
    protocols ← compile_protocols p.protocols
    ports ← compile_ports p.ports
    ok (record { filter = f; protocols = protocols; ports = ports })

  unfoldable pub decide : CompiledPolicy Addr Prefix → DestinationContext Addr → DestinationDecision
  decide c ctx =
      if nonempty c.protocols && not (has_name (to_lower ctx.protocol) c.protocols)
      then protocol_denied
      else if nonempty c.ports && not (member ctx.port c.ports)
      then port_denied
      else if not (allowed net local_cidrs c.filter ctx.hostname ctx.ip)
      then destination_denied
      else policy_allowed

  -- the loop over the two names
  unfoldable pub policies_allow :
      List (String × CompiledPolicy Addr Prefix) → List String → DestinationContext Addr → Bool
  policies_allow policies [] ctx = true
  policies_allow policies (name ∷ names) ctx =
      let later = policies_allow policies names ctx in
      if test (string_discrete name "") then later else elim (policy_named name policies) [
        | none ↦ false
        | some p ↦ if not (is_allowed (decide p ctx)) then false else later
      ]

  unfoldable pub destination_allowed :
      List (String × CompiledPolicy Addr Prefix) → String → String → DestinationContext Addr → Bool
  destination_allowed policies principal_policy tunnel_policy ctx =
      policies_allow policies (principal_policy ∷ tunnel_policy ∷ []) ctx
