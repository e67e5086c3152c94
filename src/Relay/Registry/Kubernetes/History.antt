-- ===== src/Relay/Registry/Kubernetes/History.antt =====
-- Any sequence of `UpsertKubernetes` and `RemoveKubernetes` of pkg/relay/registry.go, and the claims
-- that the Services hold after it.
use ntwire.Base.{
  ◌≤◌, String, ◌≡◌, refl, sym, ap, ◌∙◌, ◌↔◌, inl, inr, ite, Bool, true, false, not, ◌&&◌, Option,
  none, some, List, [], ◌∷◌, arith, length, Map, lookup, IsMap, if◌then◌else◌, Bool-cases,
  Option-cases, string_discrete, test,
}
use ntwire.Relay.Registry.{ServerEndpoint, Registry}
use ntwire.Relay.Registry.Kubernetes.{is_kubernetes, is_empty, conflict_of, upsert, remove}
use ntwire.Relay.Registry.Kubernetes.Claims.{
  claims, IsSettled, IsClaim, upsert-claims, remove-claims, upsert-IsSettled, remove-IsSettled,
}

pub data Op : Type 0 where
  upserts : ServerEndpoint → Op
  removes : String → String → Op

-- The last call first.
unfoldable pub run : List Op → Registry → Registry
run [] r = r
run (upserts ep ∷ ops) r = (upsert ep (run ops r)).0
run (removes hostname id ∷ ops) r = remove hostname id (run ops r)

abbrev is_claim : ServerEndpoint → Bool
is_claim ep =
    is_kubernetes ep.source
    && not (is_empty ep.hostname)
    && not (is_empty ep.address)
    && not (is_empty ep.id)

-- What the Service `id` last claimed on the hostname and did not give up, by the calls alone.
unfoldable pub claimed : List Op → String → String → Option ServerEndpoint
claimed [] h id = none
claimed (upserts ep ∷ ops) h id =
    let before = claimed ops h id in
    if is_claim ep && test (string_discrete ep.hostname h) && test (string_discrete ep.id id)
    then some ep
    else before
claimed (removes hostname gone ∷ ops) h id =
    let before = claimed ops h id in
    if test (string_discrete hostname h) && test (string_discrete gone id) then none else before

upsert_invalid : (ep : ServerEndpoint) (r : Registry) → is_claim ep ≡ false → (upsert ep r).0 ≡ r
unfolding upsert
upsert_invalid ep r bad = ground arith

is_claim-IsClaim : (ep : ServerEndpoint) → is_claim ep ≡ true → IsClaim ep
is_claim-IsClaim ep ok = (ground arith, ground arith, ground arith, ground arith)

module _ (r : Registry) (unserved : r.kubernetes ≡ []) (peaceful : r.conflicts ≡ []) where
  start-IsSettled : IsSettled r
  unfolding lookup
  start-IsSettled = record {
    unavailable = λ h c e. ground (arith, unserved);
    several = λ h c e. absurd (grind (arith, e, peaceful));
    once = λ h c e. absurd (grind (arith, e, peaceful));
    keyed = λ h k c ep e l. absurd (grind (arith, e, peaceful));
  }

  run-IsSettled : (ops : List Op) → IsSettled (run ops r)
  unfolding run
  run-IsSettled [] = start-IsSettled
  run-IsSettled (upserts ep ∷ ops) = upsert-IsSettled ep (run ops r) (run-IsSettled ops)
  run-IsSettled (removes hostname id ∷ ops) =
      remove-IsSettled hostname id (run ops r) (run-IsSettled ops)

  -- The registry's claims are those of the calls.
  run-claims :
      (ops : List Op) (h id : String)
      → lookup string_discrete id (claims h (run ops r)) ≡ claimed ops h id
  unfolding run claimed lookup
  run-claims [] h id = ground (arith, unserved, peaceful)
  run-claims (upserts ep ∷ ops) h id = elim (Bool-cases (is_claim ep)) [
    | inl ok ↦ ground (
      arith,
      ok,
      upsert-claims ep (run ops r) h id (run-IsSettled ops) (is_claim-IsClaim ep ok),
      run-claims ops h id,
    )
    | inr bad ↦ ground (arith, bad, upsert_invalid ep (run ops r) bad, run-claims ops h id)
  ]
  run-claims (removes hostname gone ∷ ops) h id =
      ground (
        arith,
        remove-claims hostname gone (run ops r) (run-IsSettled ops) h id,
        run-claims ops h id,
      )

nothing_there :
    (k : String) (m : Map String ServerEndpoint) → m ≡ [] → lookup string_discrete k m ≡ none
unfolding lookup
nothing_there k m e = rw e refl

lookup-one :
    (id : String) (ep : ServerEndpoint)
    → (k : String)
    → lookup string_discrete k ((id, ep) ∷ []) ≡ ite (string_discrete id k) (some ep) none
unfolding lookup
lookup-one id ep k = refl

-- A map with one key has one entry.
sole-length :
    (id : String) (ep : ServerEndpoint) (c : Map String ServerEndpoint)
    → IsMap string_discrete c
    → ((k : String) → lookup string_discrete k c ≡ ite (string_discrete id k) (some ep) none)
    → length c ≤ 1
unfolding lookup
sole-length id ep [] m sole = omega arith
sole-length id ep ((k, x) ∷ []) m sole = omega arith
sole-length id ep ((k, x) ∷ (j, y) ∷ c) (fresh, m) sole =
    absurd (ground (arith, fresh, sole k, sole j))

-- From a registry without discovered Services, after any upserts and removals, refused ones
-- included, an endpoint is in service on a hostname exactly when its Service holds the only claim:
-- every other Service that claimed the hostname gave it up.
pub in_service_iff :
    (r : Registry) (ops : List Op) (h : String) (ep : ServerEndpoint)
    → r.kubernetes ≡ []
    → r.conflicts ≡ []
    → (lookup string_discrete h (run ops r).kubernetes ≡ some ep)
      ↔ ((id : String) → claimed ops h id ≡ ite (string_discrete ep.id id) (some ep) none)
in_service_iff r ops h ep unserved peaceful = (forth, back)
  where
    s : Registry
    s = run ops r

    of_calls : (id : String) → lookup string_discrete id (claims h s) ≡ claimed ops h id
    of_calls id = run-claims r unserved peaceful ops h id

    forth :
        lookup string_discrete h s.kubernetes ≡ some ep
        → (id : String) → claimed ops h id ≡ ite (string_discrete ep.id id) (some ep) none
    forth e id =
        let alone : claims h s ≡ (ep.id, ep) ∷ [] = ground arith in
        sym (of_calls id) ∙ ap (lookup string_discrete id) alone ∙ lookup-one ep.id ep id

    back :
        ((id : String) → claimed ops h id ≡ ite (string_discrete ep.id id) (some ep) none)
        → lookup string_discrete h s.kubernetes ≡ some ep
    back sole = elim (Option-cases (lookup string_discrete h s.kubernetes)) [
      | inr (other, found) ↦
          let alone : claims h s ≡ (other.id, other) ∷ [] = ground arith in
          ground (
            arith,
            found,
            alone,
            of_calls other.id,
            sole other.id,
            lookup-one other.id other other.id,
          )
      | inl missing ↦ elim (Option-cases (conflict_of h s)) [
        | inl peace ↦
            let unclaimed : claims h s ≡ [] = ground arith in
            absurd (
              ground (
                arith,
                unclaimed,
                nothing_there ep.id (claims h s) unclaimed,
                of_calls ep.id,
                sole ep.id,
              ))
        | inr (c, there) ↦
            let disputed : claims h s ≡ c = ground arith in
            let v = run-IsSettled r unserved peaceful ops in
            let only =
              sole-length ep.id ep c (v.once h c there)
                (λ k. ap (lookup string_discrete k) (sym disputed) ∙ of_calls k ∙ sole k) in
            absurd (omega (arith, only, v.several h c there))
      ]
    ]
