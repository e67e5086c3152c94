-- ===== src/Server/RelayPool/Second.antt =====
-- The second section of `update` of pkg/server/relaypool.go, and `Close`.
use ntwire.Base.{
  ℕ, ◌≡◌, refl, sym, subst, ◌≢◌, ◌⊎◌, inl, inr, Bool, true, false, not, ◌&&◌, none, some, List, [],
  ◌∷◌, ◌++◌, arith, ◌==◌, if◌then◌else◌,
}
use ntwire.Server.RelayPool.{
  Member, Pool, Publication, Snapshot, Associations, unregistered, native_set, empty_snapshot,
  update_second, close,
}
use ntwire.Server.RelayPool.World.{World, told, after_second, current, Fits, Waits, IsTold}

pub Fits-front :
    (revision : ℕ) (s : Snapshot) (a : Associations) (front : List Publication) (t : Publication)
    (back : List Publication)
    → Fits revision s a (front ++ (t ∷ back))
    → Fits revision s a (front ++ back)
      × (t.at_revision ≡ revision → (t.snapshot ≡ s) × (t.native ≡ a))
Fits-front revision s a [] t back (le, same, f) = (f, same)
Fits-front revision s a (x ∷ front) t back (le, same, f) =
    let (g, h) = Fits-front revision s a front t back f in ((le, same, g), h)

pub Waits-front :
    (revision : ℕ) (front : List Publication) (t : Publication) (back : List Publication)
    → Waits revision (front ++ (t ∷ back))
    → (t.at_revision ≡ revision) ⊎ Waits revision (front ++ back)
Waits-front revision [] t back w = w
Waits-front revision (x ∷ front) t back (inl e) = inr (inl e)
Waits-front revision (x ∷ front) t back (inr w) = elim (Waits-front revision front t back w) [
  | inl e ↦ inl e
  | inr v ↦ inr (inr v)
]

pub told-eq {ℓ} :
    {A : Type ℓ} (pending : Bool) (new old target : A)
    → new ≡ target
    → (pending ≡ false → old ≡ target)
    → told (if pending then some new else none) old ≡ target
told-eq true new old target e f = e
told-eq false new old target e f = f refl

pub update_second-IsTold :
    (front : List Publication) (t : Publication) (back : List Publication) (w : World)
    → w.publications ≡ front ++ (t ∷ back)
    → IsTold w
    → IsTold (after_second (update_second t w.pool) (front ++ back) w)
unfolding update_second
update_second-IsTold front t back w e told =
    step (not w.pool.closed && w.pool.revision == t.at_revision) refl
  where
    s : Snapshot
    s = current w.pool

    a : Associations
    a = native_set w.pool.members

    fit :
        w.pool.closed ≡ false
        → Fits w.pool.revision s a (front ++ back)
          × (t.at_revision ≡ w.pool.revision → (t.snapshot ≡ s) × (t.native ≡ a))
    fit c =
        Fits-front w.pool.revision s a front t back
          (subst (Fits w.pool.revision s a) e (told.fits c))

    stale :
        (w.pool.closed ≡ false → t.at_revision ≢ w.pool.revision)
        → IsTold (after_second (w.pool, none, none) (front ++ back) w)
    stale old = record {
      fits = λ c. (fit c).0;
      latest = told.latest;
      latest_set = told.latest_set;
      waiting = λ c p.
          elim (Waits-front w.pool.revision front t back
            (subst (Waits w.pool.revision) e (told.waiting c p))) [
              | inl same ↦ absurd (old c same)
              | inr rest ↦ rest
            ];
      ended = told.ended;
    }

    fresh :
        w.pool.closed ≡ false
        → t.at_revision ≡ w.pool.revision
        → IsTold (
            after_second
              (
                record (w.pool) { preferred_pending = false; native_set_pending = false },
                if w.pool.preferred_pending then some t.snapshot else none,
                if w.pool.native_set_pending then some t.native else none,
              )
              (front ++ back)
              w)
    fresh c same = record {
      fits = λ c. (fit c).0;
      latest = λ _ _.
          told-eq w.pool.preferred_pending t.snapshot w.heard s ((fit c).1 same).0 (told.latest c);
      latest_set = λ _ _.
          told-eq w.pool.native_set_pending t.native w.heard_set a ((fit c).1 same).1
            (told.latest_set c);
      waiting = λ _ p. absurd (grind (arith, p));
      ended = λ x. absurd (grind (arith, x, c));
    }

    step :
        (b : Bool)
        → (not w.pool.closed && w.pool.revision == t.at_revision) ≡ b
        → IsTold (
            after_second
              (if b
                then (
                  record (w.pool) { preferred_pending = false; native_set_pending = false },
                  if w.pool.preferred_pending then some t.snapshot else none,
                  if w.pool.native_set_pending then some t.native else none,
                )
                else (w.pool, none, none))
              (front ++ back)
              w)
    step true h = fresh (ground (arith, h)) (ground (arith, h))
    step false h = stale (λ c same. absurd (ground (arith, h, c, same)))

pub unregistered-native_set : (ms : List Member) → native_set (unregistered ms) ≡ []
unfolding native_set unregistered
unregistered-native_set [] = refl
unregistered-native_set (m ∷ ms) = unregistered-native_set ms

pub close-IsTold : (w : World) → IsTold w → IsTold (after_second (close w.pool) w.publications w)
unfolding close
close-IsTold w told = step w.pool.closed refl
  where
    shut : Pool
    shut = record (w.pool) {
      closed = true;
      preferred = none;
      members = unregistered w.pool.members;
    }

    step :
        (b : Bool)
        → w.pool.closed ≡ b
        → IsTold (
            after_second
              (if b then (w.pool, none, none) else (shut, some empty_snapshot, some []))
              w.publications
              w)
    step true c = told
    step false c = record {
      fits = λ x. absurd (grind (arith, x));
      latest = λ x. absurd (grind (arith, x));
      latest_set = λ x. absurd (grind (arith, x));
      waiting = λ x. absurd (grind (arith, x));
      ended = λ x. (refl, sym (unregistered-native_set w.pool.members));
    }
