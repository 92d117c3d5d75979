-- ===== src/Threads.antt =====
-- tecc_threads.h: threads, mutexes and condition variables.
pub mod Defs
pub mod Pairs
