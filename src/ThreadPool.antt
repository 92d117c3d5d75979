-- ===== src/ThreadPool.antt =====
-- The thread pool.
pub mod Defs
pub mod Payload
pub mod Enqueue
pub mod Threads
pub mod Starting
pub mod Running
pub mod Ending
pub mod Interleaving
pub mod Closing
pub mod Joining
