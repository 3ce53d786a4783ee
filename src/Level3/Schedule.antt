-- ===== src/Level3/Schedule.antt =====
-- The scheduling of src/level3.c: which of the two directions is served, and for how long.
pub mod State
pub mod Turn
pub mod Range
pub mod Runs
pub mod Starving
pub mod Unset
