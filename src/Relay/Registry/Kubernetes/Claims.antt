-- ===== src/Relay/Registry/Kubernetes/Claims.antt =====
-- The Services that claim a hostname, as the specification of discovery.
use ntwire.Base.{
  length-le-insert, ◌≤◌, String, ◌≡◌, refl, subst, ◌≢◌, inl, inr, ite, true, not, ◌||◌, Option,
  none, some, [], ◌∷◌, arith, length, Map, lookup, delete, insert, lookup-delete, lookup-insert,
  IsMap, delete-IsMap, insert-IsMap, lookup-head, length-insert_absent, Bool-cases, Option-cases,
  string_discrete,
}
use ntwire.Relay.Registry.{ServerEndpoint, Registry}
use ntwire.Relay.Registry.Kubernetes.{
  is_kubernetes, is_empty, add_conflict, conflict_of, upsert_known, upsert, settle, without_claim,
  remove,
}

-- By identity: the endpoint in service, or those in conflict.
abbrev pub claims : String → Registry → Map String ServerEndpoint
claims h r = elim (lookup string_discrete h r.kubernetes) [
  | some ep ↦ (ep.id, ep) ∷ []
  | none ↦ elim (conflict_of h r) [ none ↦ [] | some c ↦ c ]
]

-- A conflict is between at least two claims, and takes the hostname out of service.
pub record IsSettled (r : Registry) : Type 0 where
  pub unavailable :
      (h : String) (c : Map String ServerEndpoint)
      → conflict_of h r ≡ some c
      → lookup string_discrete h r.kubernetes ≡ none
  pub several :
      (h : String) (c : Map String ServerEndpoint) → conflict_of h r ≡ some c → 2 ≤ length c
  pub once :
      (h : String) (c : Map String ServerEndpoint)
      → conflict_of h r ≡ some c
      → IsMap string_discrete c
  pub keyed :
      (h k : String) (c : Map String ServerEndpoint) (ep : ServerEndpoint)
      → conflict_of h r ≡ some c
      → lookup string_discrete k c ≡ some ep
      → ep.id ≡ k

abbrev pub IsClaim : ServerEndpoint → Type 0
IsClaim ep =
    (is_kubernetes ep.source ≡ true) × (ep.hostname ≢ "") × (ep.address ≢ "") × (ep.id ≢ "")

upsert_claim :
    (ep : ServerEndpoint) (r : Registry)
    → IsClaim ep
    → upsert ep r ≡ upsert_known ep (lookup string_discrete ep.hostname r.kubernetes) r
unfolding upsert
upsert_claim ep r (k, h, a, i) = ground arith

module _ (ep : ServerEndpoint) (r : Registry) (v : IsSettled r) where
  upsert_known-claims :
      (h id : String) (o : Option ServerEndpoint)
      → lookup string_discrete ep.hostname r.kubernetes ≡ o
      → lookup string_discrete id (claims h (upsert_known ep o r).0)
        ≡ ite
            (string_discrete ep.hostname h)
            (ite (string_discrete ep.id id) (some ep) (lookup string_discrete id (claims h r)))
            (lookup string_discrete id (claims h r))
  unfolding upsert_known lookup
  upsert_known-claims h id (some old) e = elim (Option-cases (conflict_of ep.hostname r)) [
    | inr (c, there) ↦ absurd (ground (arith, v.unavailable ep.hostname c there))
    | inl alone ↦ elim (string_discrete old.id ep.id) [
      | yes p ↦ ground (arith, lookup-insert string_discrete ep.hostname h ep r.kubernetes)
      | no p ↦ ground (
        arith,
        lookup-delete string_discrete ep.hostname h r.kubernetes,
        lookup-insert string_discrete ep.hostname h
            (insert string_discrete ep.id ep ((old.id, old) ∷ [])) r.conflicts,
        lookup-insert string_discrete ep.id id ep ((old.id, old) ∷ []),
      )
    ]
  ]
  upsert_known-claims h id none e = elim (Option-cases (conflict_of ep.hostname r)) [
    | inl alone ↦ ground (arith, lookup-insert string_discrete ep.hostname h ep r.kubernetes)
    | inr (c, there) ↦ ground (
      arith,
      lookup-insert string_discrete ep.hostname h (insert string_discrete ep.id ep c) r.conflicts,
      lookup-insert string_discrete ep.id id ep c,
    )
  ]

-- In a settled registry, a valid endpoint becomes the claim of its identity on its hostname; no other claim changes.
pub upsert-claims :
    (ep : ServerEndpoint) (r : Registry) (h id : String)
    → IsSettled r
    → IsClaim ep
    → lookup string_discrete id (claims h (upsert ep r).0)
      ≡ ite
          (string_discrete ep.hostname h)
          (ite (string_discrete ep.id id) (some ep) (lookup string_discrete id (claims h r)))
          (lookup string_discrete id (claims h r))
upsert-claims ep r h id v ok =
    rw (upsert_claim ep r ok)
      (upsert_known-claims ep r v h id (lookup string_discrete ep.hostname r.kubernetes) refl)

-- The claims that are left of a conflict.
module _ (hostname : String) (c : Map String ServerEndpoint) (r : Registry)
    (out : lookup string_discrete hostname r.kubernetes ≡ none)
    (keyed : (k : String) (ep : ServerEndpoint)
      → lookup string_discrete k c ≡ some ep
      → ep.id ≡ k) where
  settle-claims :
      (h j : String) (d : Map String ServerEndpoint)
      → c ≡ d
      → lookup string_discrete j (claims h (settle hostname d r))
        ≡ ite
            (string_discrete hostname h)
            (lookup string_discrete j d)
            (lookup string_discrete j (claims h r))
  unfolding settle lookup
  settle-claims h j [] e = ground (arith, lookup-delete string_discrete hostname h r.conflicts)
  settle-claims h j ((k, ep) ∷ []) e = ground (
    arith,
    keyed k ep (rw e (lookup-head string_discrete k ep [])),
    lookup-delete string_discrete hostname h r.conflicts,
    lookup-insert string_discrete hostname h ep r.kubernetes,
  )
  settle-claims h j (e1 ∷ e2 ∷ d) e =
      ground (arith, lookup-insert string_discrete hostname h (e1 ∷ e2 ∷ d) r.conflicts)

  settle-IsSettled :
      IsSettled r
      → IsMap string_discrete c
      → (d : Map String ServerEndpoint) → c ≡ d
      → IsSettled (settle hostname d r)
  unfolding settle
  settle-IsSettled v m [] e = record {
    unavailable = λ h b f.
        ground (arith, v.unavailable h b, lookup-delete string_discrete hostname h r.conflicts);
    several = λ h b f.
        ground (arith, v.several h b, lookup-delete string_discrete hostname h r.conflicts);
    once =
        λ h b f. v.once h b (ground (arith, lookup-delete string_discrete hostname h r.conflicts));
    keyed = λ h k b ep f g.
        ground (arith, v.keyed h k b ep, lookup-delete string_discrete hostname h r.conflicts);
  }
  settle-IsSettled v m ((k, sole) ∷ []) e = record {
    unavailable = λ h b f. ground (
      arith,
      v.unavailable h b,
      lookup-delete string_discrete hostname h r.conflicts,
      lookup-insert string_discrete hostname h sole r.kubernetes,
    );
    several = λ h b f.
        ground (arith, v.several h b, lookup-delete string_discrete hostname h r.conflicts);
    once =
        λ h b f. v.once h b (ground (arith, lookup-delete string_discrete hostname h r.conflicts));
    keyed = λ h k b ep f g.
        ground (arith, v.keyed h k b ep, lookup-delete string_discrete hostname h r.conflicts);
  }
  settle-IsSettled v m (e1 ∷ e2 ∷ d) e = record {
    unavailable = λ h b f. ground (
      arith,
      v.unavailable h b,
      lookup-insert string_discrete hostname h (e1 ∷ e2 ∷ d) r.conflicts,
    );
    several = λ h b f.
        ground (
          arith,
          v.several h b,
          lookup-insert string_discrete hostname h (e1 ∷ e2 ∷ d) r.conflicts,
        );
    once = λ h b f. settled_once h b f;
    keyed = λ h k b ep f g. ground (
      arith,
      v.keyed h k b ep,
      keyed k ep,
      lookup-insert string_discrete hostname h (e1 ∷ e2 ∷ d) r.conflicts,
    );
  }
    where
      settled_once :
          (h : String) (b : Map String ServerEndpoint)
          → lookup string_discrete h (insert string_discrete hostname (e1 ∷ e2 ∷ d) r.conflicts)
            ≡ some b
          → IsMap string_discrete b
      settled_once h b f = elim (string_discrete hostname h) [
        | yes p ↦
            let q : c ≡ b =
              ground (arith, lookup-insert string_discrete hostname h (e1 ∷ e2 ∷ d) r.conflicts) in
            subst (λ x. IsMap string_discrete x) q m
        | no p ↦
            v.once h b
              (ground (arith, lookup-insert string_discrete hostname h (e1 ∷ e2 ∷ d) r.conflicts))
      ]

module _ (hostname id : String) (r : Registry) (v : IsSettled r) where
  left_keyed :
      (c : Map String ServerEndpoint)
      → conflict_of hostname r ≡ some c
      → (k : String) (ep : ServerEndpoint)
      → lookup string_discrete k (delete string_discrete id c) ≡ some ep
      → ep.id ≡ k
  left_keyed c there k ep e =
      ground (arith, v.keyed hostname k c ep there, lookup-delete string_discrete id k c)

  untouched :
      (c : Map String ServerEndpoint)
      → conflict_of hostname r ≡ some c
      → without_claim hostname id r ≡ r
  untouched c there = ground (arith, v.unavailable hostname c there)

  -- Removing a Service drops its own claim on the hostname; no other claim changes.
  pub remove-claims :
      (h j : String)
      → lookup string_discrete j (claims h (remove hostname id r))
        ≡ ite
            (string_discrete hostname h)
            (ite (string_discrete id j) none (lookup string_discrete j (claims h r)))
            (lookup string_discrete j (claims h r))
  unfolding remove lookup
  remove-claims h j = elim (Option-cases (conflict_of hostname r)) [
    | inr (c, there) ↦
        rw (there, remove)
          (rw (untouched c there) (
            ground (
              arith,
              settle-claims hostname (delete string_discrete id c) r
                  (v.unavailable hostname c there) (left_keyed c there) h j
                  (delete string_discrete id c) refl,
              lookup-delete string_discrete id j c,
              v.unavailable hostname c there,
            )))
    | inl alone ↦
        rw (alone, remove) (ground (arith, lookup-delete string_discrete hostname h r.kubernetes))
  ]

  -- Removing keeps conflicts proper.
  pub remove-IsSettled : IsSettled (remove hostname id r)
  unfolding remove
  remove-IsSettled = elim (Option-cases (conflict_of hostname r)) [
    | inr (c, there) ↦
        rw (there, remove)
          (rw (untouched c there) (
            settle-IsSettled hostname (delete string_discrete id c) r
              (v.unavailable hostname c there) (left_keyed c there) v
              (delete-IsMap string_discrete id c (v.once hostname c there))
              (delete string_discrete id c) refl))
    | inl alone ↦
        rw (alone, remove)
          (record {
            unavailable = λ h b f.
                ground
                  (arith, v.unavailable h b, lookup-delete string_discrete hostname h r.kubernetes);
            several = λ h b f. ground (arith, v.several h b);
            once = λ h b f. v.once h b (ground arith);
            keyed = λ h k b ep f g. ground (arith, v.keyed h k b ep);
          })
  ]

-- A conflict set that is stored for one hostname.
module _ (ep : ServerEndpoint) (r : Registry) (v : IsSettled r) (c : Map String ServerEndpoint)
    (m : IsMap string_discrete c)
    (keyed : (k : String) (e : ServerEndpoint)
      → lookup string_discrete k c ≡ some e
      → e.id ≡ k) where
  added-once :
      (h : String) (b : Map String ServerEndpoint)
      → conflict_of h (add_conflict ep c r) ≡ some b
      → IsMap string_discrete b
  added-once h b f = elim (string_discrete ep.hostname h) [
    | yes p ↦
        let q : insert string_discrete ep.id ep c ≡ b = ground (
          arith,
          lookup-insert string_discrete ep.hostname h (insert string_discrete ep.id ep c)
              r.conflicts,
        ) in
        subst (λ x. IsMap string_discrete x) q (insert-IsMap string_discrete ep.id ep c m)
    | no p ↦ v.once h b (
        ground (
          arith,
          lookup-insert string_discrete ep.hostname h (insert string_discrete ep.id ep c)
              r.conflicts,
        ))
  ]

  added-IsSettled :
      (kube : Map String ServerEndpoint)
      → lookup string_discrete ep.hostname kube ≡ none
      → ((h : String)
          → ep.hostname ≢ h
          → lookup string_discrete h kube ≡ lookup string_discrete h r.kubernetes)
      → 2 ≤ length (insert string_discrete ep.id ep c)
      → IsSettled (record (add_conflict ep c r) { kubernetes = kube })
  added-IsSettled kube out same two = record {
    unavailable = λ h b f. ground (
      arith,
      v.unavailable h b,
      same h,
      lookup-insert string_discrete ep.hostname h (insert string_discrete ep.id ep c) r.conflicts,
    );
    several = λ h b f. ground (
      arith,
      v.several h b,
      lookup-insert string_discrete ep.hostname h (insert string_discrete ep.id ep c) r.conflicts,
    );
    once = added-once;
    keyed = λ h k b e f g. ground (
      arith,
      v.keyed h k b e,
      keyed k e,
      lookup-insert string_discrete ep.hostname h (insert string_discrete ep.id ep c) r.conflicts,
      lookup-insert string_discrete ep.id k ep c,
    );
  }

module _ (ep : ServerEndpoint) (r : Registry) (v : IsSettled r) where
  served-IsSettled :
      conflict_of ep.hostname r ≡ none
      → IsSettled (record r { kubernetes = insert string_discrete ep.hostname ep r.kubernetes })
  served-IsSettled alone = record {
    unavailable = λ h b f.
        ground
          (arith, v.unavailable h b, lookup-insert string_discrete ep.hostname h ep r.kubernetes);
    several = v.several;
    once = v.once;
    keyed = v.keyed;
  }

  upsert_known-IsSettled :
      (o : Option ServerEndpoint)
      → lookup string_discrete ep.hostname r.kubernetes ≡ o
      → IsSettled (upsert_known ep o r).0
  unfolding upsert_known lookup
  upsert_known-IsSettled (some old) e = elim (Option-cases (conflict_of ep.hostname r)) [
    | inr (c, there) ↦ absurd (ground (arith, v.unavailable ep.hostname c there))
    | inl alone ↦ elim (string_discrete old.id ep.id) [
      | yes p ↦
          let q : (upsert_known ep (some old) r).0
              ≡ record r { kubernetes = insert string_discrete ep.hostname ep r.kubernetes } =
            ground arith in
          rw q (served-IsSettled alone)
      | no p ↦
          let q : (upsert_known ep (some old) r).0
              ≡ record (add_conflict ep ((old.id, old) ∷ []) r) {
                kubernetes = delete string_discrete ep.hostname r.kubernetes;
              } =
            ground arith in
          rw q (
            added-IsSettled ep r v ((old.id, old) ∷ []) (refl, tt) (λ k x f. ground arith)
              (delete string_discrete ep.hostname r.kubernetes)
              (ground (arith, lookup-delete string_discrete ep.hostname ep.hostname r.kubernetes))
              (λ h ne. ground (arith, lookup-delete string_discrete ep.hostname h r.kubernetes))
              (ground (arith, length-insert_absent string_discrete ep.id ep ((old.id, old) ∷ []))))
    ]
  ]
  upsert_known-IsSettled none e = elim (Option-cases (conflict_of ep.hostname r)) [
    | inl alone ↦ rw (alone, upsert_known) (served-IsSettled alone)
    | inr (c, there) ↦
        rw (there, upsert_known)
          (added-IsSettled ep r v c (v.once ep.hostname c there)
            (λ k x f. v.keyed ep.hostname k c x there f) r.kubernetes e (λ h ne. refl)
            (omega (
              arith,
              v.several ep.hostname c there,
              length-le-insert string_discrete ep.id ep c (v.once ep.hostname c there),
            )))
  ]

-- A settled registry stays settled under `upsert`, refused endpoints included.
pub upsert-IsSettled :
    (ep : ServerEndpoint) (r : Registry) → IsSettled r → IsSettled (upsert ep r).0
unfolding upsert
upsert-IsSettled ep r v =
    elim (Bool-cases (
      not (is_kubernetes ep.source)
      || is_empty ep.hostname
      || is_empty ep.address
      || is_empty ep.id)) [
        | inl bad ↦ rw (bad, upsert) v
        | inr ok ↦
            rw (ok, upsert)
              (upsert_known-IsSettled ep r v (lookup string_discrete ep.hostname r.kubernetes) refl)
      ]
