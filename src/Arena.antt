-- ===== src/Arena.antt =====
-- tecc_arena.c, tecc_arena.h: elements of one size from a block, and from malloc when it is full.
pub mod Defs
pub mod Pool
pub mod Slots
pub mod Methods
pub mod Releasing
pub mod Ending
pub mod Creation
