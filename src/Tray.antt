-- ===== src/Tray.antt =====
-- The tray menu, internal/gui/tray.
pub mod SlotPool
