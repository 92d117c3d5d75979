-- ===== src/Map.antt =====
-- tecc_map.c, tecc_map.h: a hash table of strings with doubly linked buckets.
pub mod Defs
pub mod Cells
pub mod Chain
pub mod Links
pub mod Table
pub mod Methods
pub mod Writing
pub mod Removal
pub mod Clearing
pub mod Iter
pub mod Pairs
pub mod Visit
