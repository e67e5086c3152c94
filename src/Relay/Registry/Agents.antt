-- ===== src/Relay/Registry/Agents.antt =====
-- `ReplaceRegistrations` of pkg/relay/registry.go: who keeps a control connection after a reload.
-- The fingerprint of a key, which golang.org/x/crypto computes, is a parameter.
use ntwire.Base.{
  Memᴰ-append_right, Memᴰ, String, ◌≡◌, refl, ◌≢◌, ◌⊎◌, inl, inr, Bool, false, Option, none, some,
  List, [], ◌∷◌, ◌++◌, arith, Map, lookup, insert, lookup-insert, if◌then◌else◌, Option-cases,
  string_discrete, test,
}
use ntwire.Relay.Registry.{Registration, Agent, TenantState, Registry, tenant_of}

module _ (fingerprint : String → String) where
  -- byFP and fpByName: the last entry for a key wins
  unfoldable pub index_keys : List Registration → Map String Registration → Map String Registration
  index_keys [] m = m
  index_keys (reg ∷ regs) m =
      index_keys regs (insert string_discrete (fingerprint reg.public_key) reg m)

  unfoldable pub index_names : List Registration → Map String String → Map String String
  index_names [] m = m
  index_names (reg ∷ regs) m =
      index_names regs (insert string_discrete reg.name (fingerprint reg.public_key) m)

  -- stillRegistered && newFP == t.agent.Fingerprint
  abbrev pub is_authorized : Map String String → String → Agent → Bool
  is_authorized names name a = elim (lookup string_discrete name names) [
    | none ↦ false
    | some fp ↦ test (string_discrete fp a.fingerprint)
  ]

  pub kept_agent : Map String String → String → Option Agent → Option Agent
  kept_agent names name none = none
  kept_agent names name (some a) = if is_authorized names name a then some a else none

  evicted_agent : Map String String → String → Option Agent → List Agent
  evicted_agent names name none = []
  evicted_agent names name (some a) = if is_authorized names name a then [] else a ∷ []

  -- the loop over the tenants: their new states, and the agents to close
  unfoldable pub evict :
      Map String String → Map String TenantState → Map String TenantState × List Agent
  unfolding kept_agent evicted_agent
  evict names [] = ([], [])
  evict names ((name, t) ∷ m) =
      let rest = evict names m in
      (
        (name, record t { agent = kept_agent names name t.agent }) ∷ rest.0,
        evicted_agent names name t.agent ++ rest.1,
      )

  unfoldable pub replace_registrations : List Registration → Registry → Registry × List Agent
  unfolding index_keys index_names evict
  replace_registrations regs r =
      let (tenants, evicted) = evict (index_names regs []) r.tenants in
      (record r { by_fingerprint = index_keys regs []; tenants = tenants }, evicted)

  pub lookup-evict :
      (names : Map String String) (name : String) (m : Map String TenantState)
      → lookup string_discrete name (evict names m).0 ≡ elim (lookup string_discrete name m) [
        | none ↦ none
        | some t ↦ some (record t { agent = kept_agent names name t.agent })
      ]
  unfolding evict lookup
  lookup-evict names name [] = refl
  lookup-evict names name ((j, t) ∷ m) = ground (arith, lookup-evict names name m)

  -- What the last registration of a name says of its key.
  abbrev pub IsRegistered : List Registration → String → String → Type 0
  IsRegistered [] name fp = ⊥
  IsRegistered (reg ∷ regs) name fp =
      ((reg.name ≡ name) × (fingerprint reg.public_key ≡ fp)) ⊎ IsRegistered regs name fp

  index_names_sound :
      (regs : List Registration) (m : Map String String) (name fp : String)
      → lookup string_discrete name (index_names regs m) ≡ some fp
      → IsRegistered regs name fp ⊎ (lookup string_discrete name m ≡ some fp)
  unfolding index_names
  index_names_sound [] m name fp e = inr e
  index_names_sound (reg ∷ regs) m name fp e =
      elim (index_names_sound regs (insert string_discrete reg.name (fingerprint reg.public_key) m)
        name fp e) [
          | inl later ↦ inl (inr later)
          | inr old ↦ elim (string_discrete reg.name name) [
            | yes p ↦ inl (
                inl (
                  p,
                  ground (
                    arith,
                    lookup-insert string_discrete reg.name name (fingerprint reg.public_key) m,
                  ),
                ))
            | no p ↦ inr (
                ground (
                  arith,
                  lookup-insert string_discrete reg.name name (fingerprint reg.public_key) m,
                ))
          ]
        ]

  kept-authorized :
      (names : Map String String) (name : String) (o : Option Agent) (a : Agent)
      → kept_agent names name o ≡ some a
      → lookup string_discrete name names ≡ some a.fingerprint
  unfolding kept_agent
  kept-authorized names name none a e = absurd (ground arith)
  kept-authorized names name (some b) a e = ground arith

  evict-kept :
      (names : Map String String) (name : String) (m : Map String TenantState) (t : TenantState)
      (a : Agent)
      → lookup string_discrete name (evict names m).0 ≡ some t
      → t.agent ≡ some a
      → lookup string_discrete name names ≡ some a.fingerprint
  evict-kept names name m t a e f = elim (Option-cases (lookup string_discrete name m)) [
    | inl missing ↦ absurd (ground (arith, lookup-evict names name m))
    | inr (u, found) ↦
        kept-authorized names name u.agent a (ground (arith, lookup-evict names name m))
  ]

  -- After a reload every control connection that is left belongs to a name of the new set, with the
  -- key that the new set gives that name.
  pub replace_registrations-authorized :
      (regs : List Registration) (r : Registry) (name : String) (t : TenantState) (a : Agent)
      → tenant_of name (replace_registrations regs r).0 ≡ some t
      → t.agent ≡ some a
      → IsRegistered regs name a.fingerprint
  unfolding replace_registrations
  replace_registrations-authorized regs r name t a e f =
      elim (index_names_sound regs [] name a.fingerprint
        (evict-kept (index_names regs []) name r.tenants t a e f)) [
          | inl registered ↦ registered
          | inr nowhere ↦ absurd (unfold lookup in (ground arith))
        ]

  evicted_self :
      (names : Map String String) (name : String) (t : TenantState) (a : Agent)
      → t.agent ≡ some a
      → lookup string_discrete name names ≢ some a.fingerprint
      → evicted_agent names name t.agent ≡ a ∷ []
  unfolding evicted_agent
  evicted_self names name t a f gone = rw f (ground arith)

  evict-closes :
      (names : Map String String) (name : String) (m : Map String TenantState) (t : TenantState)
      (a : Agent)
      → lookup string_discrete name m ≡ some t
      → t.agent ≡ some a
      → lookup string_discrete name names ≢ some a.fingerprint
      → Memᴰ a (evict names m).1
  unfolding evict lookup
  evict-closes names name [] t a e f gone = absurd (ground arith)
  evict-closes names name ((j, u) ∷ m) t a e f gone = elim (string_discrete j name) [
    | yes p ↦ rw (evicted_self names j u a (ground arith) (rw p gone)) (Memᴰ.head refl)
    | no p ↦
        Memᴰ-append_right (evicted_agent names j u.agent)
          (evict-closes names name m t a (ground arith) f gone)
  ]

  -- A control connection that the new set does not authorize is closed.
  pub replace_registrations-closes :
      (regs : List Registration) (r : Registry) (name : String) (t : TenantState) (a : Agent)
      → tenant_of name r ≡ some t
      → t.agent ≡ some a
      → ¬ IsRegistered regs name a.fingerprint
      → Memᴰ a (replace_registrations regs r).1
  unfolding replace_registrations
  replace_registrations-closes regs r name t a e f gone =
      evict-closes (index_names regs []) name r.tenants t a e f λ found.
        elim (index_names_sound regs [] name a.fingerprint found) [
          | inl registered ↦ gone registered
          | inr nowhere ↦ unfold lookup in (ground arith)
        ]
