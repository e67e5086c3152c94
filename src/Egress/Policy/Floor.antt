-- ===== src/Egress/Policy/Floor.antt =====
-- What no configuration of destination policies allows, pkg/server/policy.go with
-- pkg/socks/filter.go, and the composition of the policies of a principal and a tunnel.
use ntwire.Base.{
  Result, ℕ, String, ◌≡◌, refl, sym, ap, subst, ◌∙◌, ◌≢◌, ◌↔◌, ◌⊎◌, inl, inr, Bool, true, false,
  not, ◌||◌, Option, none, some, List, [], ◌∷◌, arith, ◌>>=◌, guard, ◌==◌, if◌then◌else◌,
  Bool-cases, string_discrete, test,
}
use ntwire.Base.{ok, err}
use ntwire.Egress.Filter.{
  Netip, Filter, FilterConfig, parse_prefixes, new_filter, allowed, denied_by_default, member,
  nonempty,
}
use ntwire.Egress.Policy.{
  DestinationPolicy, CompiledPolicy, DestinationContext, DestinationDecision, policy_allowed,
  protocol_denied, port_denied, destination_denied, is_allowed, has_name, policy_named,
  compile_ports, is_protocol, lift_filter, filter_config, compile_protocols, compile_policy, decide,
  policies_allow, destination_allowed,
}

bind-ok :
    {E A B : Type 0} (r : Result E A) (f : A → Result E B) (b : B)
    → (r >>= f) ≡ ok b
    → (a : A) × (r ≡ ok a) × (f a ≡ ok b)
bind-ok (ok a) f b e = (a, refl, e)
bind-ok (err x) f b e = absurd (grind (arith, e))

from_ok : {E A : Type 0} → A → Result E A → A
from_ok a (ok b) = b
from_ok a (err e) = a

ok-injective : {E A : Type 0} (a b : A) → Path (Result E A) (ok a) (ok b) → a ≡ b
unfolding from_ok
ok-injective a b e = ap (from_ok a) e

some-injective {ℓ} : {A : Type ℓ} (a b : A) → some a ≡ some b → a ≡ b
some-injective a b e = ap (λ o. elim o [ none ↦ a | some x ↦ x ]) e

guard-holds : {E : Type 0} (b : Bool) (e : E) (u : Unit {0}) → guard b e ≡ ok u → b ≡ true
guard-holds true e u q = refl
guard-holds false e u q = absurd (grind (arith, q))

lift_filter-holds : {E A : Type 0} (r : Result E A) (a : A) → lift_filter r ≡ ok a → r ≡ ok a
lift_filter-holds (ok b) a q = ap ok (ok-injective b a q)
lift_filter-holds (err e) a q = absurd (grind (arith, q))

-- A name that a list with one more name has.
has_name-cons :
    (name b : String) (bs : List String)
    → has_name name (b ∷ bs) ≡ true
    → (name ≡ b) ⊎ (has_name name bs ≡ true)
unfolding has_name
has_name-cons name b bs = one (string_discrete name b)
  where
    one :
        (d : Dec (name ≡ b))
        → (test d || has_name name bs) ≡ true
        → (name ≡ b) ⊎ (has_name name bs ≡ true)
    one (yes p) e = inl p
    one (no p) e = inr e

compile_ports-exact :
    {E : Type 0} (vs ports : List ℕ)
    → compile_ports {E = E} vs ≡ ok ports
    → (ports ≡ vs) × (member 0 vs ≡ false)
unfolding compile_ports member
compile_ports-exact [] ports e = grind (arith, e)
compile_ports-exact (v ∷ vs) ports e =
    let (_, g, e1) = bind-ok (guard (not (v == 0)) _) _ ports e in
    let (later, e2, e3) = bind-ok (compile_ports vs) _ ports e1 in
    let (same_, absent) = compile_ports-exact vs later e2 in
    let nonzero = guard-holds (not (v == 0)) _ _ g in
    let listed : v ∷ later ≡ ports = ok-injective (v ∷ later) ports e3 in
    (sym listed ∙ ap (λ t. v ∷ t) same_, grind (arith, nonzero, absent))

both : (a b : Bool) → (if not a then false else b) ≡ true → (a ≡ true) × (b ≡ true)
both true b e = (refl, e)
both false b e = absurd (grind (arith, e))

module _ {Addr Prefix ParseError : Type 0} (net : Netip Addr Prefix ParseError)
    (to_lower trim_space : String → String) (local_cidrs : List Prefix) where
  compile_protocols-known :
      (vs protocols : List String) (name : String)
      → compile_protocols net to_lower trim_space local_cidrs vs ≡ ok protocols
      → has_name name protocols ≡ true
      → is_protocol name ≡ true
  unfolding compile_protocols has_name
  compile_protocols-known [] protocols name e m = grind (arith, e, m)
  compile_protocols-known (v ∷ vs) protocols name e m =
      let (_, g, e1) = bind-ok (guard (is_protocol (to_lower (trim_space v))) _) _ protocols e in
      let (later, e2, e3) =
        bind-ok (compile_protocols net to_lower trim_space local_cidrs vs) _ protocols e1 in
      let listed = ok-injective (to_lower (trim_space v) ∷ later) protocols e3 in
      let known = guard-holds (is_protocol (to_lower (trim_space v))) _ _ g in
      elim (has_name-cons name (to_lower (trim_space v)) later
        (subst (λ t. has_name name t ≡ true) (sym listed) m)) [
          | inl same_ ↦ subst (λ t. is_protocol t ≡ true) (sym same_) known
          | inr more ↦ compile_protocols-known vs later name e2 more
        ]

  allowed-floor :
      (f : Filter Addr Prefix) (hostname : String) (ip : Addr)
      → f.allow_local ≡ false
      → allowed net local_cidrs f hostname ip ≡ true
      → denied_by_default net ip ≡ false
  unfolding allowed
  allowed-floor f hostname ip l a = ground arith

  new_filter-allow_local :
      (cfg : FilterConfig) (asn : Option (Addr → Option ℕ)) (f : Filter Addr Prefix)
      → new_filter net cfg asn ≡ ok f
      → f.allow_local ≡ cfg.allow_local_egress
  unfolding new_filter
  new_filter-allow_local cfg asn f e =
      let (cidrs, e1, e2) = bind-ok (parse_prefixes net cfg.cidrs) _ f e in
      sym (ap (λ g. g.allow_local) (ok-injective _ f e2))

  compile_policy-parts :
      (p : DestinationPolicy) (asn : Option (Addr → Option ℕ)) (c : CompiledPolicy Addr Prefix)
      → compile_policy net to_lower trim_space local_cidrs p asn ≡ ok c
      → (new_filter net (filter_config p) asn ≡ ok c.filter)
        × (compile_protocols net to_lower trim_space local_cidrs p.protocols ≡ ok c.protocols)
        × (compile_ports {E = ParseError} p.ports ≡ ok c.ports)
  unfolding compile_policy
  compile_policy-parts p asn c e =
      let (f, e1, e2) = bind-ok (lift_filter (new_filter net (filter_config p) asn)) _ c e in
      let (protocols, e3, e4) =
        bind-ok (compile_protocols net to_lower trim_space local_cidrs p.protocols) _ c e2 in
      let (ports, e5, e6) = bind-ok (compile_ports p.ports) _ c e4 in
      subst
        (λ c.
          (new_filter net (filter_config p) asn ≡ ok c.filter)
          × (compile_protocols net to_lower trim_space local_cidrs p.protocols ≡ ok c.protocols)
          × (compile_ports {E = ParseError} p.ports ≡ ok c.ports))
        (ok-injective _ c e6) (lift_filter-holds _ f e1, e3, e5)

  compile_policy-allow_local :
      (p : DestinationPolicy) (asn : Option (Addr → Option ℕ)) (c : CompiledPolicy Addr Prefix)
      → compile_policy net to_lower trim_space local_cidrs p asn ≡ ok c
      → c.filter.allow_local ≡ false
  compile_policy-allow_local p asn c e =
      let (f, _, _) = compile_policy-parts p asn c e in
      new_filter-allow_local (filter_config p) asn c.filter f

  decide-allowed :
      (c : CompiledPolicy Addr Prefix) (ctx : DestinationContext Addr)
      → decide net to_lower trim_space local_cidrs c ctx ≡ policy_allowed
      → (nonempty c.protocols ≡ true → has_name (to_lower ctx.protocol) c.protocols ≡ true)
        × (nonempty c.ports ≡ true → member ctx.port c.ports ≡ true)
        × (allowed net local_cidrs c.filter ctx.hostname ctx.ip ≡ true)
  unfolding decide
  decide-allowed c ctx d = grind (arith, d)

  -- the two names, each approving on its own
  abbrev pub Approves :
      List (String × CompiledPolicy Addr Prefix) → DestinationContext Addr → String → Type 0
  Approves policies ctx name =
      name ≢ ""
      → (c : CompiledPolicy Addr Prefix) × (policy_named name policies ≡ some c)
        × (decide net to_lower trim_space local_cidrs c ctx ≡ policy_allowed)

  is_allowed-exact : (d : DestinationDecision) → is_allowed d ≡ true → d ≡ policy_allowed
  is_allowed-exact policy_allowed e = refl
  is_allowed-exact protocol_denied e = absurd (grind (arith, e))
  is_allowed-exact port_denied e = absurd (grind (arith, e))
  is_allowed-exact destination_denied e = absurd (grind (arith, e))

  -- the body of the loop for a name
  abbrev approve_then : Option (CompiledPolicy Addr Prefix) → DestinationContext Addr → Bool → Bool
  approve_then o ctx later = elim o [
    | none ↦ false
    | some p ↦
        if not (is_allowed (decide net to_lower trim_space local_cidrs p ctx)) then false else later
  ]

  approve_then_iff :
      (o : Option (CompiledPolicy Addr Prefix)) (ctx : DestinationContext Addr) (later : Bool)
      → (approve_then o ctx later ≡ true) ↔ (
          ((c : CompiledPolicy Addr Prefix) × (o ≡ some c)
            × (decide net to_lower trim_space local_cidrs c ctx ≡ policy_allowed))
          × (later ≡ true))
  approve_then_iff none ctx later =
      (λ e. absurd (grind (arith, e)), λ ((c, e, d), l). absurd (grind (arith, e)))
  approve_then_iff (some p) ctx later = (
    λ e.
        let (a, l) = both (is_allowed (decide net to_lower trim_space local_cidrs p ctx)) later e in
        ((p, refl, is_allowed-exact _ a), l),
    λ ((c, e, d), l).
        let same_ = some-injective p c e in
        subst
          (λ q.
            (if not (is_allowed (decide net to_lower trim_space local_cidrs q ctx))
              then false
              else later)
            ≡ true)
          (sym same_) (rw (d, l) refl),
  )

  policies_allow-cons :
      (policies : List (String × CompiledPolicy Addr Prefix)) (name : String) (names : List String)
      (ctx : DestinationContext Addr)
      → (policies_allow net to_lower trim_space local_cidrs policies (name ∷ names) ctx ≡ true) ↔ (
          Approves policies ctx name
          × (policies_allow net to_lower trim_space local_cidrs policies names ctx ≡ true))
  unfolding policies_allow
  policies_allow-cons policies name names ctx = split (string_discrete name "")
    where
      later : Bool
      later = policies_allow net to_lower trim_space local_cidrs policies names ctx

      split :
          (d : Dec (name ≡ ""))
          → ((if test d then later else approve_then (policy_named name policies) ctx later) ≡ true)
            ↔ (Approves policies ctx name × (later ≡ true))
      split (yes empty) = (λ e. (λ ne. absurd (ne empty), e), λ (a, e). e)
      split (no ne) =
          let (to, from) = approve_then_iff (policy_named name policies) ctx later in
          (λ e. (λ _. (to e).0, (to e).1), λ (a, e). from (a ne, e))

  -- Of two policies: the server lets a connection through exactly when each of the principal's and
  -- the tunnel's policy that is named is known to it and decides to allow the destination.
  pub destination_allowed_iff :
      (policies : List (String × CompiledPolicy Addr Prefix))
      (principal_policy tunnel_policy : String) (ctx : DestinationContext Addr)
      → (destination_allowed net to_lower trim_space local_cidrs policies principal_policy
            tunnel_policy ctx
          ≡ true)
        ↔ (Approves policies ctx principal_policy × Approves policies ctx tunnel_policy)
  unfolding destination_allowed policies_allow
  destination_allowed_iff policies principal_policy tunnel_policy ctx =
      let (to, from) = policies_allow-cons policies principal_policy (tunnel_policy ∷ []) ctx in
      let (to', from') = policies_allow-cons policies tunnel_policy [] ctx in
      (λ e. let (a, e') = to e in (a, (to' e').0), λ (a, b). from (a, from' (b, refl)))

  -- every policy of the server is one that it compiled
  abbrev pub AllCompiled : List (String × CompiledPolicy Addr Prefix) → Type 0
  AllCompiled [] = Unit
  AllCompiled ((name, c) ∷ policies) =
      ((p : DestinationPolicy) × (asn : Option (Addr → Option ℕ)) × (compile_policy net to_lower
            trim_space local_cidrs p asn
          ≡ ok c))
      × AllCompiled policies

  policy_named-compiled :
      (policies : List (String × CompiledPolicy Addr Prefix)) (name : String)
      (c : CompiledPolicy Addr Prefix)
      → AllCompiled policies
      → policy_named name policies ≡ some c
      → c.filter.allow_local ≡ false
  unfolding policy_named
  policy_named-compiled [] name c a e = absurd (grind (arith, e))
  policy_named-compiled ((n, q) ∷ policies) name c ((p, asn, w), a) e =
      elim (Bool-cases (test (string_discrete name n))) [
        | inl hit ↦ compile_policy-allow_local p asn c (
            w
            ∙ ap ok (
                some-injective q c
                  (subst (λ b. (if b then some q else policy_named name policies) ≡ some c) hit e)))
        | inr miss ↦
            policy_named-compiled policies name c a
              (subst (λ b. (if b then some q else policy_named name policies) ≡ some c) miss e)
      ]

  approved-floor :
      (policies : List (String × CompiledPolicy Addr Prefix)) (ctx : DestinationContext Addr)
      (name : String)
      → AllCompiled policies
      → name ≢ ""
      → Approves policies ctx name
      → denied_by_default net ctx.ip ≡ false
  approved-floor policies ctx name all ne a =
      let (c, e, d) = a ne in
      allowed-floor c.filter ctx.hostname ctx.ip (policy_named-compiled policies name c all e)
        (decide-allowed c ctx d).2

  -- Where the principal or the tunnel names a policy, and every policy of the server is a compiled one, no
  -- destination that is denied by default is let through (the server's loopback, link-local
  -- addresses, the unspecified and an invalid address): neither an inverted nor an
  -- allow-all filter reaches it.
  pub destination_allowed-floor :
      (policies : List (String × CompiledPolicy Addr Prefix))
      (principal_policy tunnel_policy : String) (ctx : DestinationContext Addr)
      → AllCompiled policies
      → (principal_policy ≢ "") ⊎ (tunnel_policy ≢ "")
      → destination_allowed net to_lower trim_space local_cidrs policies principal_policy
          tunnel_policy ctx
        ≡ true
      → denied_by_default net ctx.ip ≡ false
  destination_allowed-floor policies principal_policy tunnel_policy ctx all named e =
      let (a, b) = (destination_allowed_iff policies principal_policy tunnel_policy ctx).0 e in
      elim named [
        | inl ne ↦ approved-floor policies ctx principal_policy all ne a
        | inr ne ↦ approved-floor policies ctx tunnel_policy all ne b
      ]

  -- What a compiled policy allows: a protocol other than TCP and UDP never where the policy lists
  -- protocols, and where it lists ports only those, and never port 0.
  pub decide-compile_policy :
      (p : DestinationPolicy) (asn : Option (Addr → Option ℕ)) (c : CompiledPolicy Addr Prefix)
      (ctx : DestinationContext Addr)
      → compile_policy net to_lower trim_space local_cidrs p asn ≡ ok c
      → decide net to_lower trim_space local_cidrs c ctx ≡ policy_allowed
      → (nonempty c.protocols ≡ true → is_protocol (to_lower ctx.protocol) ≡ true)
        × (nonempty p.ports ≡ true → (member ctx.port p.ports ≡ true) × (ctx.port ≢ 0))
  decide-compile_policy p asn c ctx e d =
      let (_, e1, e2) = compile_policy-parts p asn c e in
      let (protocols, ports, _) = decide-allowed c ctx d in
      let (same_, nonzero) = compile_ports-exact {E = ParseError} p.ports c.ports e2 in
      (
        λ n.
            compile_protocols-known p.protocols c.protocols (to_lower ctx.protocol) e1
              (protocols n),
        λ n.
            let listed =
              subst (λ t. member ctx.port t ≡ true) same_
                (ports (subst (λ t. nonempty t ≡ true) (sym same_) n)) in
            (listed, λ z. absurd (grind (arith, nonzero, listed, z))),
      )
