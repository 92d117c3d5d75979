-- ===== src/Signal.antt =====
-- The signal, which threads set and wait for.
pub mod Defs
pub mod Moves
pub mod Waking
pub mod Timing
pub mod Objects
pub mod Lifetime
