-- ===== src/Tests/Trays.antt =====
-- Inputs for the slot pool of the tray, internal/gui/tray.
use ntwire.Base.{◌≡◌, refl, none, some, string_discrete, refuted}
use ntwire.Tray.SlotPool.{
  SlotPool, find_slot, acquire, release, action_at, set_action, store_action, new_slot_pool,
  free_ids, no_actions,
}
use ntwire.Tray.SlotPool.Binding.{Reach, start, call, acquires, acts, releases, acquired_slot_clean}

abbrev home_bound : SlotPool
home_bound = (acquire "home" (new_slot_pool 1)).0

abbrev home_acts : SlotPool
home_acts = set_action "home" (some 3) home_bound

abbrev home_released : SlotPool
home_released = release "home" home_acts

home_released-Reach : Reach 1 home_released
unfolding string_discrete
home_released-Reach =
    let named = refuted (string_discrete "home" "") refl in
    let a = call _ _ start (acquires "home" (new_slot_pool 1) named) in
    call _ _ (call _ _ a (acts "home" (some 3) home_bound named)) (releases "home" home_acts)

acquired_slot_clean_example : action_at (acquire "work" home_released).0.actions 0 ≡ none
unfolding acquire release set_action store_action find_slot new_slot_pool free_ids no_actions
    string_discrete
acquired_slot_clean_example =
    acquired_slot_clean 1 home_released "work" 0 home_released-Reach refl refl
