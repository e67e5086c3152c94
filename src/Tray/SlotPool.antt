-- ===== src/Tray/SlotPool.antt =====
-- `slotPool` of internal/gui/tray/pool.go: menu rows that are bound to names and to actions. A slot is its
-- place in the list; an action is a number. `setAction` has a section under the mutex and an atomic store:
-- they are one step here, since one goroutine renders the menu. Showing and hiding rows is left out, and
-- so is the callback of `releaseAllExceptFunc`.
pub mod Binding
use ntwire.Base.{
  min, max, ℕ, zero, suc, ◌+◌, ◌-◌, ◌*◌, ◌/◌, ◌%◌, ◌^◌, ◌≤◌, ◌<◌, String, ◌≡◌, refl, sym, ap, subst,
  ◌∙◌, ◌≢◌, ◌↔◌, ◌⊎◌, inl, inr, ite, Bool, true, false, not, ◌&&◌, ◌||◌, Option, none, some, Memᴰ,
  List, [], ◌∷◌, ◌++◌, map, append_assoc, append-nil, arith, dec_lt, dec_le, ℕ_discrete, none-some,
  nil-cons, option_discrete, list_discrete, pair_discrete, length, take, drop, set, length-set,
  length-append, take-append-drop, length-take, length-drop, take-length-append, drop-length-append,
  bit, count, count-append, Memᴰ-append_right, Map, tally, lookup, delete, insert, lookup-delete,
  lookup-insert, get_or, has, IsMap, delete-IsMap, insert-IsMap, delete_absent, tally-delete,
  length-delete, tally-insert_absent, tally-insert_present, bit-has-le, lookup-head,
  tally-delete-le, length-delete-le, length-insert-le, tally-insert-le, tail-lookup, tally_all,
  length-insert_absent, length-le-insert, lookup-insert_cases, ◌>>=◌, ◌>>◌, guard, ltb, leb, ◌==◌,
  if◌then◌else◌, Bool-cases, Option-cases, string_discrete, test, is_text, refuted,
}

pub record SlotPool : Type 0 where
  pub ids : List String
  pub actions : List (Option ℕ)

unfoldable pub free_ids : ℕ → List String
free_ids zero = []
free_ids (suc n) = "" ∷ free_ids n

unfoldable pub no_actions : ℕ → List (Option ℕ)
no_actions zero = []
no_actions (suc n) = none ∷ no_actions n

unfoldable pub new_slot_pool : ℕ → SlotPool
unfolding free_ids no_actions
new_slot_pool n = record { ids = free_ids n; actions = no_actions n }

-- the loop over the names: the first slot of a name
unfoldable pub find_slot : String → List String → Option ℕ
find_slot id [] = none
find_slot id (existing ∷ ids) =
    let rest = find_slot id ids in
    if is_text existing id then some 0 else elim rest [ none ↦ none | some i ↦ some (suc i) ]

-- The slot of a name, or else a free one.
unfoldable pub acquire : String → SlotPool → SlotPool × Option ℕ
unfolding find_slot
acquire id p = elim (find_slot id p.ids) [
  | some i ↦ (p, some i)
  | none ↦ elim (find_slot "" p.ids) [
    | none ↦ (p, none)
    | some i ↦ (record p { ids = set p.ids i id }, some i)
  ]
]

unfoldable pub release : String → SlotPool → SlotPool
unfolding find_slot
release id p = elim (find_slot id p.ids) [
  | none ↦ p
  | some i ↦ record p { ids = set p.ids i ""; actions = set p.actions i none }
]

-- the names that are not kept
unfoldable pub to_release : (String → Bool) → List String → List String
to_release keep [] = []
to_release keep (id ∷ ids) =
    let rest = to_release keep ids in
    if not (is_text id "") && not (keep id) then id ∷ rest else rest

unfoldable pub release_each : List String → SlotPool → SlotPool
unfolding release
release_each [] p = p
release_each (id ∷ ids) p = release_each ids (release id p)

unfoldable pub release_all_except : (String → Bool) → SlotPool → SlotPool
unfolding to_release release_each
release_all_except keep p = release_each (to_release keep p.ids) p

-- the store of `setAction`, for the slot that was found before
unfoldable pub store_action : ℕ → Option ℕ → SlotPool → SlotPool
store_action i fn p = record p { actions = set p.actions i fn }

-- `setAction` with no other call between its two sections
unfoldable pub set_action : String → Option ℕ → SlotPool → SlotPool
unfolding find_slot store_action
set_action id fn p = elim (find_slot id p.ids) [ none ↦ p | some i ↦ store_action i fn p ]

-- What a click on a slot invokes.
abbrev pub action_at : List (Option ℕ) → ℕ → Option ℕ
action_at [] i = none
action_at (a ∷ as_) zero = a
action_at (a ∷ as_) (suc i) = action_at as_ i
