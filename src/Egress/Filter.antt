-- ===== src/Egress/Filter.antt =====
-- The destination filter, pkg/socks/filter.go. Addresses, prefixes and the operations of Go's
-- net/netip and of strings.HasSuffix are parameters. A map with empty values is a list.
use ntwire.Base.{
  Result, ℕ, String, Bool, true, false, not, ◌&&◌, ◌||◌, Option, none, some, List, [], ◌∷◌, ◌>>=◌,
  ◌==◌, if◌then◌else◌, string_discrete, test,
}
use ntwire.Base.{ok}

pub record FilterConfig : Type 0 where
  pub only_local : Bool
  pub cidrs : List String
  pub domain_suffixes : List String
  pub asns : List ℕ
  pub invert : Bool
  pub allow_all : Bool
  pub allow_local_egress : Bool

-- What the filter uses of net/netip and strings.
pub record Netip (Addr Prefix ParseError : Type 0) : Type 0 where
  pub unmap : Addr → Addr
  pub is_valid : Addr → Bool
  pub is_loopback : Addr → Bool
  pub is_unspecified : Addr → Bool
  pub is_link_local_unicast : Addr → Bool
  pub is_link_local_multicast : Addr → Bool
  pub is_interface_local_multicast : Addr → Bool
  pub is4 : Addr → Bool
  pub addr : Prefix → Addr
  pub contains : Prefix → Addr → Bool
  pub parse_prefix : String → Result ParseError Prefix
  pub has_suffix : String → String → Bool

pub record Filter (Addr Prefix : Type 0) : Type 0 where
  pub allow_local : Bool
  pub only_local : Bool
  pub cidrs : List Prefix
  pub domains : List String
  pub asns : List ℕ
  pub invert : Bool
  pub allow_all : Bool
  pub has_filters : Bool
  pub asn_lookup : Option (Addr → Option ℕ)  -- nil is `none`

-- len(xs) > 0
abbrev pub nonempty {ℓ} : {A : Type ℓ} → List A → Bool
nonempty [] = false
nonempty (x ∷ xs) = true

unfoldable pub member : ℕ → List ℕ → Bool
member a [] = false
member a (b ∷ bs) = a == b || member a bs

-- a test of two flags for equality
abbrev pub same : Bool → Bool → Bool
same true b = b
same false b = not b

module _ {Addr Prefix ParseError : Type 0} (net : Netip Addr Prefix ParseError) where
  unfoldable pub denied_by_default : Addr → Bool
  denied_by_default ip =
      let unmapped = net.unmap ip in
      not (net.is_valid unmapped)
      || net.is_loopback unmapped
      || net.is_unspecified unmapped
      || net.is_link_local_unicast unmapped
      || net.is_link_local_multicast unmapped
      || net.is_interface_local_multicast unmapped

  -- the loop over prefixes that returns the first error
  unfoldable pub parse_prefixes : List String → Result ParseError (List Prefix)
  parse_prefixes [] = ok []
  parse_prefixes (c ∷ cs) = do p ← net.parse_prefix c; ps ← parse_prefixes cs; ok (p ∷ ps)

  unfoldable pub new_filter :
      FilterConfig → Option (Addr → Option ℕ) → Result ParseError (Filter Addr Prefix)
  new_filter cfg asn_lookup = do
    cidrs ← parse_prefixes cfg.cidrs
    ok (record {
      allow_local = cfg.allow_local_egress;
      only_local = cfg.only_local;
      cidrs = cidrs;
      domains = cfg.domain_suffixes;
      asns = cfg.asns;
      invert = cfg.invert;
      allow_all = cfg.allow_all;
      has_filters =
          nonempty cidrs || nonempty cfg.domain_suffixes || nonempty cfg.asns || cfg.invert;
      asn_lookup = asn_lookup;
    })

  -- the loop of `matchesAnyCIDR`, on the unmapped address
  unfoldable pub any_contains : Addr → List Prefix → Bool
  any_contains ip [] = false
  any_contains ip (p ∷ prefixes) =
      if not (same (net.is4 (net.addr p)) (net.is4 ip))
      then any_contains ip prefixes
      else if net.contains p ip
      then true
      else any_contains ip prefixes

  unfoldable pub matches_any_cidr : Addr → List Prefix → Bool
  matches_any_cidr ip prefixes =
      if not (net.is_valid ip) then false else any_contains (net.unmap ip) prefixes

  unfoldable pub matches_suffix : String → List String → Bool
  matches_suffix hostname [] = false
  matches_suffix hostname (suf ∷ suffixes) =
      if not (test (string_discrete suf "")) && net.has_suffix hostname suf
      then true
      else matches_suffix hostname suffixes

  unfoldable pub matches_domain_suffix : String → List String → Bool
  matches_domain_suffix hostname suffixes =
      if test (string_discrete hostname "") then false else matches_suffix hostname suffixes

  -- asnLookup.Lookup(ip), and whether the result is listed
  unfoldable pub asn_listed : Option (Addr → Option ℕ) → Addr → List ℕ → Bool
  asn_listed none ip asns = false
  asn_listed (some look) ip asns = elim (look ip) [ none ↦ false | some asn ↦ member asn asns ]

  module _ (local_cidrs : List Prefix) where
    unfoldable pub net_match : Filter Addr Prefix → Addr → Bool
    net_match f ip =
        let cidr_match = matches_any_cidr ip f.cidrs in
        cidr_match || (not cidr_match && nonempty f.asns && asn_listed f.asn_lookup ip f.asns)

    unfoldable pub filter_match : Filter Addr Prefix → String → Addr → Bool
    filter_match f hostname ip =
        if not (nonempty f.domains)
        then net_match f ip
        else if nonempty f.cidrs && not (net_match f ip)
        then false
        else matches_domain_suffix hostname f.domains

    unfoldable pub allowed : Filter Addr Prefix → String → Addr → Bool
    allowed f hostname ip =
        if not f.allow_local && denied_by_default ip
        then false
        else if f.only_local
        then matches_any_cidr ip local_cidrs
        else if not f.has_filters
        then f.allow_all
        else if f.invert
        then not (filter_match f hostname ip)
        else filter_match f hostname ip
