-- ===== src/Server/RelayPool/First.antt =====
-- The first section of `update` of pkg/server/relaypool.go, and what the callbacks are still to be told.
use ntwire.Base.{
  list_discrete, pair_discrete, option_discrete, ℕ, zero, suc, ◌+◌, String, ◌≡◌, refl, sym, ap,
  subst, ◌∙◌, ◌≢◌, inl, Bool, true, false, not, ◌&&◌, ◌||◌, Option, none, some, List, [], ◌∷◌,
  arith, ℕ_discrete, set, if◌then◌else◌, string_discrete, test,
}
use ntwire.Server.RelayPool.{
  Member, Response, Publication, Snapshot, Associations, member_at, choose_preferred, native_set,
  snapshot_of, snapshot_at, noted, is_changed, is_accepted, differs, same_member, same_set,
  record_member, update_first,
}
use ntwire.Server.RelayPool.Preferred.{IsRegistered, IsResult, choose_preferred-Registered}
use ntwire.Server.RelayPool.World.{World, told, after_first, current, Fits, IsTold}

pub Fits-newer :
    (revision : ℕ) (s s2 : Snapshot) (a a2 : Associations) (ts : List Publication)
    → Fits revision s a ts
    → Fits (revision + 1) s2 a2 ts
Fits-newer revision s s2 a a2 [] f = tt
Fits-newer revision s s2 a a2 (t ∷ ts) (le, same, f) =
    (omega arith, λ e. absurd (omega arith), Fits-newer revision s s2 a a2 ts f)

pub noted-IsTold :
    (changed set_changed : Bool) (members : List Member) (preferred : Option ℕ) (domain : String)
    (w : World)
    → w.pool.closed ≡ false
    → (changed ≡ false → current w.pool ≡ snapshot_of members preferred)
    → (set_changed ≡ false → native_set w.pool.members ≡ native_set members)
    → IsTold w
    → IsTold (after_first (noted changed set_changed members preferred domain w.pool) w)
unfolding noted
noted-IsTold true set_changed members preferred domain w open_ same same_native told = record {
  fits = λ c. (
    omega arith,
    λ e. (refl, refl),
    Fits-newer w.pool.revision (current w.pool) (snapshot_of members preferred)
        (native_set w.pool.members) (native_set members) w.publications (told.fits c),
  );
  latest = λ c e. absurd (ground (arith, e));
  latest_set = λ c e.
      let pending : w.pool.native_set_pending ≡ false = ground (arith, e) in
      let kept : set_changed ≡ false = ground (arith, e) in
      told.latest_set c pending ∙ same_native kept;
  waiting = λ c e. inl refl;
  ended = λ c. absurd (grind (arith, c, open_));
}
noted-IsTold false true members preferred domain w open_ same same_native told = record {
  fits = λ c. (
    omega arith,
    λ e. (refl, refl),
    Fits-newer w.pool.revision (current w.pool) (snapshot_of members preferred)
        (native_set w.pool.members) (native_set members) w.publications (told.fits c),
  );
  latest = λ c e.
      let pending : w.pool.preferred_pending ≡ false = ground (arith, e) in
      told.latest c pending ∙ same refl;
  latest_set = λ c e. absurd (ground (arith, e));
  waiting = λ c e. inl refl;
  ended = λ c. absurd (grind (arith, c, open_));
}
noted-IsTold false false members preferred domain w open_ same same_native told = record {
  fits = λ c.
      subst (λ a. Fits w.pool.revision (snapshot_of members preferred) a w.publications)
        (same_native refl)
        (subst (λ s. Fits w.pool.revision s (native_set w.pool.members) w.publications) (same refl)
          (told.fits c));
  latest = λ c e.
      let pending : w.pool.preferred_pending ≡ false = ground (arith, e) in
      told.latest c pending ∙ same refl;
  latest_set = λ c e.
      let pending : w.pool.native_set_pending ≡ false = ground (arith, e) in
      told.latest_set c pending ∙ same_native refl;
  waiting = λ c e.
      let pending : (w.pool.preferred_pending || w.pool.native_set_pending) ≡ true =
        ground (arith, e) in
      told.waiting c pending;
  ended = λ c. absurd (grind (arith, c, open_));
}

pub member_at-set :
    (ms : List Member) (i : ℕ) (old new : Member)
    → member_at ms i ≡ some old
    → member_at (set ms i new) i ≡ some new
member_at-set [] i old new e = absurd (grind (arith, e))
member_at-set (m ∷ ms) zero old new e = refl
member_at-set (m ∷ ms) (suc i) old new e = member_at-set ms i old new e

pub member_at-set_other :
    (ms : List Member) (i j : ℕ) (new : Member)
    → j ≢ i
    → member_at (set ms i new) j ≡ member_at ms j
member_at-set_other [] i j new ne = refl
member_at-set_other (m ∷ ms) zero zero new ne = absurd (ne refl)
member_at-set_other (m ∷ ms) zero (suc j) new ne = refl
member_at-set_other (m ∷ ms) (suc i) zero new ne = refl
member_at-set_other (m ∷ ms) (suc i) (suc j) new ne =
    member_at-set_other ms i j new (λ e. ne (ap suc e))

pub holds : {A : Type 0} → (d : Dec A) → test d ≡ true → A
holds (yes a) e = a
holds (no n) e = absurd (grind (arith, e))

-- Two responses whose published fields agree.
pub not-differs :
    (a b : Response)
    → differs a b ≡ false
    → (a.reflect_addr ≡ b.reflect_addr)
      × (a.udp_relay_addr ≡ b.udp_relay_addr)
      × (a.native_addr ≡ b.native_addr)
      × (a.native_token ≡ b.native_token)
not-differs a b e = ground (arith, e)

pub same_member-eq : (a b : Option ℕ) → same_member a b ≡ true → a ≡ b
same_member-eq a b e = holds (option_discrete ℕ_discrete a b) e

-- Where nothing is noted as changed, the values of the preferred member are the same.
pub unchanged-snapshot :
    (ms : List Member) (i : ℕ) (old : Member) (ok : Bool) (response : Response)
    (before after : Option ℕ)
    → member_at ms i ≡ some old
    → ((j : ℕ)
        → after ≡ some j
        → IsRegistered (set ms i (record { registered = ok; response = response })) j)
    → is_changed i old ok response before after ≡ false
    → snapshot_of ms before
      ≡ snapshot_of (set ms i (record { registered = ok; response = response })) after
unchanged-snapshot ms i old ok response before after at valid e =
    subst (λ b. snapshot_of ms b ≡ snapshot_of next after) (sym same) (step after refl)
  where
    new : Member
    new = record { registered = ok; response = response }

    next : List Member
    next = set ms i new

    same : before ≡ after
    same = same_member-eq before after (ground (arith, e))

    quiet : (same_member after (some i) && ok && differs old.response response) ≡ false
    quiet = ground (arith, e)

    new_at : member_at next i ≡ some new
    new_at = member_at-set ms i old new at

    registered : after ≡ some i → ok ≡ true
    registered f =
        let (m, m_at, r) = valid i f in
        let eq : m ≡ new = grind (arith, m_at, new_at) in
        ap (λ (x : Member). x.registered) (sym eq) ∙ r

    reads : after ≡ some i → snapshot_at i (some old) ≡ snapshot_at i (some new)
    reads f =
        let is_same : same_member after (some i) ≡ true = ground (arith, f) in
        let (a, b, c, d) =
          not-differs old.response response (ground (arith, quiet, registered f, is_same)) in
        cc (a, b, c, d)

    this : after ≡ some i → snapshot_of ms (some i) ≡ snapshot_of next (some i)
    this f = ap (snapshot_at i) at ∙ reads f ∙ ap (snapshot_at i) (sym new_at)

    step : (o : Option ℕ) → after ≡ o → snapshot_of ms o ≡ snapshot_of next o
    step none f = refl
    step (some j) f = elim (ℕ_discrete j i) [
      | yes p ↦
          subst (λ k. snapshot_of ms (some k) ≡ snapshot_of next (some k)) (sym p)
            (this (f ∙ ap some p))
      | no ne ↦ ap (snapshot_at j) (sym (member_at-set_other ms i j new ne))
    ]

pub record_member-IsTold :
    (stats : ℕ → ℕ × ℕ) (i : ℕ) (old : Member) (ok : Bool) (response : Response) (w : World)
    → w.pool.closed ≡ false
    → member_at w.pool.members i ≡ some old
    → IsTold w
    → IsTold (after_first (record_member stats i old ok response w.pool) w)
unfolding record_member
record_member-IsTold stats i old ok response w open_ at told =
    noted-IsTold (is_changed i old ok response w.pool.preferred after)
      (not (same_set (native_set w.pool.members) (native_set next))) next after _ w open_
      (unchanged-snapshot w.pool.members i old ok response w.pool.preferred after at valid)
      (λ e.
        holds
          (list_discrete (pair_discrete string_discrete string_discrete) (native_set w.pool.members)
            (native_set next))
          (ground (arith, e)))
      told
  where
    next : List Member
    next = set w.pool.members i (record { registered = ok; response = response })

    after : Option ℕ
    after = choose_preferred stats next w.pool.preferred

    valid : (j : ℕ) → after ≡ some j → IsRegistered next j
    valid j e = subst (IsResult next) e (choose_preferred-Registered stats next w.pool.preferred).0

pub update_first-IsTold :
    (stats : ℕ → ℕ × ℕ) (i : ℕ) (registered : Bool) (response : Response) (w : World)
    → IsTold w
    → IsTold (after_first (update_first stats i registered response w.pool) w)
unfolding update_first
update_first-IsTold stats i registered response w told = closed_step w.pool.closed refl
  where
    ok : Bool
    ok = is_accepted registered response w.pool

    member_step :
        (o : Option Member)
        → w.pool.closed ≡ false
        → member_at w.pool.members i ≡ o
        → IsTold (
            after_first
              (elim o [
                | none ↦ (w.pool, none)
                | some old ↦ record_member stats i old ok response w.pool
              ])
              w)
    member_step none c at = told
    member_step (some old) c at = record_member-IsTold stats i old ok response w c at told

    closed_step :
        (b : Bool)
        → w.pool.closed ≡ b
        → IsTold (
            after_first
              (if b then (w.pool, none) else elim (member_at w.pool.members i) [
                | none ↦ (w.pool, none)
                | some old ↦ record_member stats i old ok response w.pool
              ])
              w)
    closed_step true c = told
    closed_step false c = member_step (member_at w.pool.members i) c refl
