-- ===== src/Trace/Overlay.antt =====
-- The overlay of Developer Mode, source/trace/src/overlay_manager.cpp: the manager (Manager), what its
-- queues draw (Lines), what its operations do to one client (View), what is asked of them (Asked) and held (Held), that the operations keep it (Clocks, Steps),
-- and that a line shows what was last
-- asked for (Shown).
pub mod Manager
pub mod Lines
pub mod View
pub mod Asked
pub mod Held
pub mod Clocks
pub mod Steps
pub mod Shown
