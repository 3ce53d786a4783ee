-- ===== src/Level3.antt =====
-- Level 3 of src/level3.c: the state machine of the bridge, its buffers and its filters.
pub mod DoubleBuffer
pub mod State
pub mod Monad
pub mod Machine
pub mod ControlFilter
pub mod MemoryPool
pub mod HayesFilter
pub mod Multibyte
pub mod Chunk
pub mod Schedule
pub mod Enhanced
