-- ===== src/Config.antt =====
-- The configuration of src/config.c and include/config.h.
pub mod Words
pub mod State
pub mod Line
