-- ===== src/Server/RelayPool/Publishing.antt =====
-- What the callbacks of a `RelayPool` of pkg/server/relaypool.go were told once no update is under way.
use ntwire.Base.{
  ℕ, zero, suc, ◌≡◌, refl, sym, subst, inl, inr, Bool, true, false, ◌||◌, [], arith, Bool-cases,
}
use ntwire.Server.RelayPool.{new_relay_pool, new_members, native_set, snapshot_of}
use ntwire.Server.RelayPool.World.{
  start, call, updates, publishes, closes, closes, publishes, call, updates, World, told, new_world,
  Step, Reach, current, Waits, IsTold,
}
use ntwire.Server.RelayPool.First.{update_first-IsTold}
use ntwire.Server.RelayPool.Second.{update_second-IsTold, close-IsTold}

pub new_members-native_set : (n : ℕ) → native_set (new_members n) ≡ []
unfolding native_set new_members
new_members-native_set zero = refl
new_members-native_set (suc n) = new_members-native_set n

pub new_world-IsTold : (n : ℕ) → IsTold (new_world n)
unfolding new_relay_pool
new_world-IsTold n = record {
  fits = λ c. tt;
  latest = λ c e. refl;
  latest_set = λ c e. sym (new_members-native_set n);
  waiting = λ c p. absurd (grind (arith, p));
  ended = λ c. absurd (grind (arith, c));
}

pub Step-IsTold : (v w : World) → Step v w → IsTold v → IsTold w
Step-IsTold v _ (updates stats i registered response _) told =
    update_first-IsTold stats i registered response v told
Step-IsTold v _ (publishes front t back _ e) told = update_second-IsTold front t back v e told
Step-IsTold v _ (closes _) told = close-IsTold v told

pub Reach-IsTold : (n : ℕ) (w : World) → Reach n w → IsTold w
Reach-IsTold n _ start = new_world-IsTold n
Reach-IsTold n _ (call v w r step) = Step-IsTold v w step (Reach-IsTold n v r)

-- However the two sections of the updates and closes interleave: once no update is between its sections,
-- the callbacks were last told the present values of the preferred member and the present set of native
-- associations.
pub callbacks_settle :
    (n : ℕ) (w : World)
    → Reach n w
    → w.publications ≡ []
    → (w.heard ≡ snapshot_of w.pool.members w.pool.preferred)
      × (w.heard_set ≡ native_set w.pool.members)
callbacks_settle n w r none_left = step w.pool.closed refl
  where
    told : IsTold w
    told = Reach-IsTold n w r

    idle : w.pool.closed ≡ false → (w.pool.preferred_pending || w.pool.native_set_pending) ≡ false
    idle c = elim (Bool-cases (w.pool.preferred_pending || w.pool.native_set_pending)) [
      | inl e ↦ absurd (subst (Waits w.pool.revision) none_left (told.waiting c e))
      | inr e ↦ e
    ]

    step :
        (b : Bool)
        → w.pool.closed ≡ b
        → (w.heard ≡ current w.pool) × (w.heard_set ≡ native_set w.pool.members)
    step true c = told.ended c
    step false c =
        let preferred : w.pool.preferred_pending ≡ false = ground (arith, idle c) in
        let set_ : w.pool.native_set_pending ≡ false = ground (arith, idle c) in
        (told.latest c preferred, told.latest_set c set_)
