-- ===== src/Server/RelayPool/World.antt =====
-- What the callbacks of a `RelayPool` of pkg/server/relaypool.go are told, when its two critical sections
-- interleave with others. `callbacksMu` is held from the start of the second section to the end of the
-- callbacks, so the second section and its callbacks are one step.
use ntwire.Base.{ℕ, ◌≤◌, ◌≡◌, ◌⊎◌, Bool, true, false, ◌||◌, Option, none, some, List, [], ◌∷◌, ◌++◌}
use ntwire.Server.RelayPool.{
  Response, Pool, Publication, Snapshot, Associations, new_relay_pool, native_set, snapshot_of,
  empty_snapshot, update_first, update_second, close,
}

-- The pool, the calls of `update` between their sections, and what the callbacks were told last.
pub record World : Type 0 where
  pub pool : Pool
  pub publications : List Publication
  pub heard : Snapshot
  pub heard_set : Associations

abbrev pub told {ℓ} : {A : Type ℓ} → Option A → A → A
told none old = old
told (some new) old = new

abbrev pub added : Option Publication → List Publication → List Publication
added none ts = ts
added (some t) ts = t ∷ ts

abbrev pub new_world : ℕ → World
new_world n = record {
  pool = new_relay_pool n;
  publications = [];
  heard = empty_snapshot;
  heard_set = [];
}

abbrev pub after_first : Pool × Option Publication → World → World
after_first (p, t) w = record w { pool = p; publications = added t w.publications }

abbrev pub after_second :
    Pool × Option Snapshot × Option Associations → List Publication → World → World
after_second (p, s, a) ts w = record {
  pool = p;
  publications = ts;
  heard = told s w.heard;
  heard_set = told a w.heard_set;
}

-- The sections of any calls, in any order.
pub data Step : World → World → Type 0 where
  updates :
      (stats : ℕ → ℕ × ℕ) (i : ℕ) (registered : Bool) (response : Response) (w : World)
      → Step w (after_first (update_first stats i registered response w.pool) w)
  publishes :
      (front : List Publication) (t : Publication) (back : List Publication) (w : World)
      → w.publications ≡ front ++ (t ∷ back)
      → Step w (after_second (update_second t w.pool) (front ++ back) w)
  closes : (w : World) → Step w (after_second (close w.pool) w.publications w)

pub data Reach (n : ℕ) : World → Type 0 where
  start : Reach n (new_world n)
  call : (v w : World) → Reach n v → Step v w → Reach n w

abbrev pub current : Pool → Snapshot
current p = snapshot_of p.members p.preferred

-- A publication is not newer than the pool, and one of the pool's revision has the pool's values.
abbrev pub Fits : ℕ → Snapshot → Associations → List Publication → Type 0
Fits revision s a [] = Unit
Fits revision s a (t ∷ ts) =
    (t.at_revision ≤ revision)
    × (t.at_revision ≡ revision → (t.snapshot ≡ s) × (t.native ≡ a))
    × Fits revision s a ts

-- A publication of that revision is under way.
abbrev pub Waits : ℕ → List Publication → Type 0
Waits revision [] = ⊥
Waits revision (t ∷ ts) = (t.at_revision ≡ revision) ⊎ Waits revision ts

-- What the callbacks were told, and what is still to be told.
pub record IsTold (w : World) : Type 0 where
  pub fits :
      w.pool.closed ≡ false
      → Fits w.pool.revision (current w.pool) (native_set w.pool.members) w.publications
  pub latest : w.pool.closed ≡ false → w.pool.preferred_pending ≡ false → w.heard ≡ current w.pool
  pub latest_set :
      w.pool.closed ≡ false
      → w.pool.native_set_pending ≡ false
      → w.heard_set ≡ native_set w.pool.members
  pub waiting :
      w.pool.closed ≡ false
      → (w.pool.preferred_pending || w.pool.native_set_pending) ≡ true
      → Waits w.pool.revision w.publications
  pub ended :
      w.pool.closed ≡ true → (w.heard ≡ current w.pool) × (w.heard_set ≡ native_set w.pool.members)
