-- ===== src/Tests/Policies.antt =====
-- Policies over a small model of addresses: 0 is not valid, 127 is the loopback, and the rest are
-- ordinary; a prefix is one address, and texts with a letter "a" parse as the address 8.
use ntwire.Base.{
  ℕ, String, ◌≡◌, refl, ◌≢◌, ◌↔◌, inl, true, false, not, none, [], ◌∷◌, ◌==◌, string_discrete,
}
use ntwire.Base.{ok, refuted}
use ntwire.Egress.Filter.{
  Netip, denied_by_default, filter_match, net_match, matches_any_cidr, any_contains, parse_prefixes,
  member, new_filter, allowed,
}
use ntwire.Egress.Policy.{
  DestinationPolicy, CompiledPolicy, DestinationContext, policy_allowed, has_name, policy_named,
  policies_allow, compile_protocols, compile_ports, compile_policy, decide, destination_allowed,
}
use ntwire.Egress.Policy.Floor.{Approves, destination_allowed_iff, destination_allowed-floor}

abbrev net : Netip ℕ ℕ String
net = record {
  unmap = λ a. a;
  is_valid = λ a. not (a == 0);
  is_loopback = λ a. a == 127;
  is_unspecified = λ a. false;
  is_link_local_unicast = λ a. false;
  is_link_local_multicast = λ a. false;
  is_interface_local_multicast = λ a. false;
  is4 = λ a. true;
  addr = λ p. p;
  contains = λ p a. p == a;
  parse_prefix = λ s. ok 8;
  has_suffix = λ s t. false;
}

abbrev id_text : String → String
id_text s = s

abbrev to_dns : DestinationPolicy
to_dns = record {
  filters = "8" ∷ [];
  domain_filters = [];
  asn_filters = [];
  only_local = false;
  reverse_filters = false;
  allow_all = false;
  protocols = "udp" ∷ [];
  ports = 53 ∷ [];
}

abbrev compiled : CompiledPolicy ℕ ℕ
compiled = record {
  filter = record {
    allow_local = false;
    only_local = false;
    cidrs = 8 ∷ [];
    domains = [];
    asns = [];
    invert = false;
    allow_all = false;
    has_filters = true;
    asn_lookup = none;
  };
  protocols = "udp" ∷ [];
  ports = 53 ∷ [];
}

to_dns-compiled : compile_policy net id_text id_text [] to_dns none ≡ ok compiled
unfolding compile_policy new_filter parse_prefixes compile_protocols string_discrete compile_ports
to_dns-compiled = refl

abbrev query : DestinationContext ℕ
query = record { hostname = ""; protocol = "udp"; ip = 8; port = 53 }

query-decided : decide net id_text id_text [] compiled query ≡ policy_allowed
unfolding decide has_name string_discrete member allowed denied_by_default filter_match net_match
    matches_any_cidr any_contains
query-decided = refl

query-allowed :
    destination_allowed net id_text id_text [] (("dns", compiled) ∷ []) "dns" "" query ≡ true
unfolding destination_allowed policies_allow policy_named string_discrete decide has_name member
    allowed denied_by_default filter_match net_match matches_any_cidr any_contains
query-allowed = refl

destination_allowed_iff_example :
    (destination_allowed net id_text id_text [] (("dns", compiled) ∷ []) "dns" "" query ≡ true) ↔ (
      Approves net id_text id_text [] (("dns", compiled) ∷ []) query "dns"
      × Approves net id_text id_text [] (("dns", compiled) ∷ []) query "")
destination_allowed_iff_example =
    destination_allowed_iff net id_text id_text [] (("dns", compiled) ∷ []) "dns" "" query

abbrev dns_name : String
dns_name = "dns"

named : dns_name ≢ ""
unfolding string_discrete
named = refuted (string_discrete dns_name "") refl

destination_allowed-floor_example : denied_by_default net 8 ≡ false
destination_allowed-floor_example =
    destination_allowed-floor net id_text id_text [] (("dns", compiled) ∷ []) "dns" "" query
      ((to_dns, none, to_dns-compiled), tt) (inl named) query-allowed
