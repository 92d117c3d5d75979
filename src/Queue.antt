-- ===== src/Queue.antt =====
-- tecc_queue.c, tecc_queue.h: a queue of pointers as a linked list with a head and a tail.
pub mod Defs
pub mod Line
pub mod Methods
pub mod Calls
