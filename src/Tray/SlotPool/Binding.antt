-- ===== src/Tray/SlotPool/Binding.antt =====
-- Which slot a name is bound to, and which action it invokes, in internal/gui/tray/pool.go.
use ntwire.Base.{
  ℕ, zero, suc, String, ◌≡◌, refl, sym, ◌∙◌, ◌≢◌, Bool, true, Option, none, some, List, [], ◌∷◌,
  arith, set, if◌then◌else◌, is_text,
}
use ntwire.Tray.SlotPool.{
  SlotPool, acquire, action_at, find_slot, free_ids, new_slot_pool, no_actions, release, set_action,
  store_action,
}

abbrev found_in : Bool → Option ℕ → Option ℕ
found_in b rest = if b then some 0 else elim rest [ none ↦ none | some i ↦ some (suc i) ]

is_text_refl : (s : String) → is_text s s ≡ true
is_text_refl s = ground arith

-- A name written over a slot of another.
find_slot-set :
    (id old : String) (ids : List String) (i : ℕ)
    → find_slot id ids ≡ none
    → find_slot old ids ≡ some i
    → find_slot id (set ids i id) ≡ some i
unfolding find_slot
find_slot-set id old [] i e f = absurd (grind (arith, f))
find_slot-set id old (x ∷ ids) zero e f = ground (arith, e, f)
find_slot-set id old (x ∷ ids) (suc i) e f = ground (arith, e, f, find_slot-set id old ids i)

-- A third name keeps its slot.
find_slot-set_other :
    (id old new : String) (ids : List String) (i : ℕ)
    → id ≢ old
    → id ≢ new
    → find_slot old ids ≡ some i
    → find_slot id (set ids i new) ≡ find_slot id ids
unfolding find_slot
find_slot-set_other id old new [] i n m f = refl
find_slot-set_other id old new (x ∷ ids) zero n m f = ground (arith, n, m, f)
find_slot-set_other id old new (x ∷ ids) (suc i) n m f =
    ground (arith, n, m, f, find_slot-set_other id old new ids i n m)

-- What the answers of `acquire` promise of a name.
IsBound : String → List String → SlotPool × Option ℕ → Type 0
IsBound id ids (p, none) = (p.ids ≡ ids) × (find_slot id ids ≡ none) × (find_slot "" ids ≡ none)
IsBound id ids (p, some i) =
    (find_slot id p.ids ≡ some i)
    × ((other : String) → other ≢ id → other ≢ "" → find_slot other p.ids ≡ find_slot other ids)

acquire-cases : (id : String) (p : SlotPool) → IsBound id p.ids (acquire id p)
unfolding acquire IsBound
acquire-cases id p = known (find_slot id p.ids) refl
  where
    taken :
        (o : Option ℕ)
        → find_slot id p.ids ≡ none
        → find_slot "" p.ids ≡ o
        → IsBound id p.ids
            (elim o [ none ↦ (p, none) | some i ↦ (record p { ids = set p.ids i id }, some i) ])
    taken none e f = (refl, e, f)
    taken (some i) e f = (
      find_slot-set id "" p.ids i e f,
      λ other n m. find_slot-set_other other "" id p.ids i m n f,
    )

    known :
        (o : Option ℕ)
        → find_slot id p.ids ≡ o
        → IsBound id p.ids (elim o [
          | some i ↦ (p, some i)
          | none ↦ elim (find_slot "" p.ids) [
            | none ↦ (p, none)
            | some i ↦ (record p { ids = set p.ids i id }, some i)
          ]
        ])
    known (some i) e = (e, λ other n m. refl)
    known none e = taken (find_slot "" p.ids) e refl

-- A slot that `acquire` gives to a name is the slot of that name, and every other name keeps the one that
-- it has.
pub acquire_binds :
    (id : String) (p : SlotPool) (i : ℕ)
    → (acquire id p).1 ≡ some i
    → (find_slot id (acquire id p).0.ids ≡ some i)
      × ((other : String)
          → other ≢ id
          → other ≢ ""
          → find_slot other (acquire id p).0.ids ≡ find_slot other p.ids)
unfolding IsBound
acquire_binds id p i e = step (acquire id p) e (acquire-cases id p)
  where
    step :
        (r : SlotPool × Option ℕ)
        → r.1 ≡ some i
        → IsBound id p.ids r
        → (find_slot id r.0.ids ≡ some i)
          × ((other : String)
              → other ≢ id
              → other ≢ ""
              → find_slot other r.0.ids ≡ find_slot other p.ids)
    step (q, none) e h = absurd (grind (arith, e))
    step (q, some j) e (bound, kept) = (bound ∙ e, kept)

-- A free slot has no action.
abbrev pub IsClean : List String → List (Option ℕ) → Type 0
IsClean [] [] = Unit
IsClean [] (a ∷ rest) = ⊥
IsClean (x ∷ ids) [] = ⊥
IsClean (x ∷ ids) (a ∷ rest) = (x ≡ "" → a ≡ none) × IsClean ids rest

new-IsClean : (n : ℕ) → IsClean (free_ids n) (no_actions n)
unfolding free_ids no_actions
new-IsClean zero = tt
new-IsClean (suc n) = (λ e. refl, new-IsClean n)

IsClean-release :
    (ids : List String) (actions : List (Option ℕ)) (i : ℕ)
    → IsClean ids actions
    → IsClean (set ids i "") (set actions i none)
IsClean-release [] [] i h = tt
IsClean-release [] (a ∷ rest) i h = elim h [ ]
IsClean-release (x ∷ ids) [] i h = elim h [ ]
IsClean-release (x ∷ ids) (a ∷ rest) zero (c, h) = (λ e. refl, h)
IsClean-release (x ∷ ids) (a ∷ rest) (suc i) (c, h) = (c, IsClean-release ids rest i h)

IsClean-bind :
    (id : String) (ids : List String) (actions : List (Option ℕ)) (i : ℕ)
    → id ≢ ""
    → IsClean ids actions
    → IsClean (set ids i id) actions
IsClean-bind id [] [] i n h = tt
IsClean-bind id [] (a ∷ rest) i n h = elim h [ ]
IsClean-bind id (x ∷ ids) [] i n h = elim h [ ]
IsClean-bind id (x ∷ ids) (a ∷ rest) zero n (c, h) = (λ e. absurd (n e), h)
IsClean-bind id (x ∷ ids) (a ∷ rest) (suc i) n (c, h) = (c, IsClean-bind id ids rest i n h)

IsClean-store :
    (id : String) (fn : Option ℕ) (ids : List String) (actions : List (Option ℕ)) (i : ℕ)
    → id ≢ ""
    → find_slot id ids ≡ some i
    → IsClean ids actions
    → IsClean ids (set actions i fn)
unfolding find_slot
IsClean-store id fn [] [] i n f h = tt
IsClean-store id fn [] (a ∷ rest) i n f h = elim h [ ]
IsClean-store id fn (x ∷ ids) [] i n f h = elim h [ ]
IsClean-store id fn (x ∷ ids) (a ∷ rest) zero n f (c, h) =
    let same : x ≡ id = ground (arith, f) in (λ e. absurd (n (sym same ∙ e)), h)
IsClean-store id fn (x ∷ ids) (a ∷ rest) (suc i) n f (c, h) =
    (c, IsClean-store id fn ids rest i n (ground (arith, f)) h)

IsClean-free :
    (ids : List String) (actions : List (Option ℕ)) (i : ℕ)
    → find_slot "" ids ≡ some i
    → IsClean ids actions
    → action_at actions i ≡ none
unfolding find_slot
IsClean-free [] actions i f h = absurd (grind (arith, f))
IsClean-free (x ∷ ids) [] i f h = elim h [ ]
IsClean-free (x ∷ ids) (a ∷ rest) zero f (c, h) = let same : x ≡ "" = ground (arith, f) in c same
IsClean-free (x ∷ ids) (a ∷ rest) (suc i) f (c, h) = IsClean-free ids rest i (ground (arith, f)) h

-- One call of the goroutine that renders the menu; names are not empty.
pub data Step : SlotPool → SlotPool → Type 0 where
  acquires : (id : String) (p : SlotPool) → id ≢ "" → Step p (acquire id p).0
  releases : (id : String) (p : SlotPool) → Step p (release id p)
  acts : (id : String) (fn : Option ℕ) (p : SlotPool) → id ≢ "" → Step p (set_action id fn p)

pub data Reach (n : ℕ) : SlotPool → Type 0 where
  start : Reach n (new_slot_pool n)
  call : (p q : SlotPool) → Reach n p → Step p q → Reach n q

acquire-IsClean :
    (id : String) (p : SlotPool)
    → id ≢ ""
    → IsClean p.ids p.actions
    → IsClean (acquire id p).0.ids (acquire id p).0.actions
unfolding acquire
acquire-IsClean id p n h = step (find_slot id p.ids) (find_slot "" p.ids)
  where
    step :
        (o q : Option ℕ)
        → let r : SlotPool × Option ℕ = elim o [
          | some i ↦ (p, some i)
          | none ↦ elim q [
            | none ↦ (p, none)
            | some i ↦ (record p { ids = set p.ids i id }, some i)
          ]
        ] in
          IsClean r.0.ids r.0.actions
    step (some i) q = h
    step none none = h
    step none (some i) = IsClean-bind id p.ids p.actions i n h

release-IsClean :
    (id : String) (p : SlotPool)
    → IsClean p.ids p.actions
    → IsClean (release id p).ids (release id p).actions
unfolding release
release-IsClean id p h = step (find_slot id p.ids)
  where
    step :
        (o : Option ℕ)
        → let q : SlotPool = elim o [
          | none ↦ p
          | some i ↦ record p { ids = set p.ids i ""; actions = set p.actions i none }
        ] in
          IsClean q.ids q.actions
    step none = h
    step (some i) = IsClean-release p.ids p.actions i h

set_action-IsClean :
    (id : String) (fn : Option ℕ) (p : SlotPool)
    → id ≢ ""
    → IsClean p.ids p.actions
    → IsClean (set_action id fn p).ids (set_action id fn p).actions
unfolding set_action store_action
set_action-IsClean id fn p n h = step (find_slot id p.ids) refl
  where
    step :
        (o : Option ℕ)
        → find_slot id p.ids ≡ o
        → let q : SlotPool = elim o [ none ↦ p | some i ↦ store_action i fn p ] in
          IsClean q.ids q.actions
    step none e = h
    step (some i) e = IsClean-store id fn p.ids p.actions i n e h

Reach-IsClean : (n : ℕ) (p : SlotPool) → Reach n p → IsClean p.ids p.actions
unfolding new_slot_pool
Reach-IsClean n _ start = new-IsClean n
Reach-IsClean n _ (call p q r step) = go step (Reach-IsClean n p r)
  where
    go : {q : SlotPool} → Step p q → IsClean p.ids p.actions → IsClean q.ids q.actions
    go (acquires id _ named) h = acquire-IsClean id p named h
    go (releases id _) h = release-IsClean id p h
    go (acts id fn _ named) h = set_action-IsClean id fn p named h

-- After any calls of one goroutine with names that are not empty, a slot that a name newly gets invokes
-- nothing: what the slot was bound to before left no action.
pub acquired_slot_clean :
    (n : ℕ) (p : SlotPool) (id : String) (i : ℕ)
    → Reach n p
    → find_slot id p.ids ≡ none
    → (acquire id p).1 ≡ some i
    → action_at (acquire id p).0.actions i ≡ none
unfolding acquire
acquired_slot_clean n p id i reach unbound e =
    step (find_slot id p.ids) (find_slot "" p.ids) unbound refl e
  where
    step :
        (o q : Option ℕ)
        → o ≡ none
        → find_slot "" p.ids ≡ q
        → let r : SlotPool × Option ℕ = elim o [
          | some i ↦ (p, some i)
          | none ↦ elim q [
            | none ↦ (p, none)
            | some i ↦ (record p { ids = set p.ids i id }, some i)
          ]
        ] in
          r.1 ≡ some i → action_at r.0.actions i ≡ none
    step (some j) q u f g = absurd (grind (arith, u))
    step none none u f g = absurd (grind (arith, g))
    step none (some j) u f g = IsClean-free p.ids p.actions i (f ∙ g) (Reach-IsClean n p reach)
