-- ===== src/Worker.antt =====
-- The worker: a thread with a queue of messages, and the messages.
pub mod Messages
pub mod Defs
pub mod Serving
pub mod Steps
pub mod Order
pub mod Starting
pub mod Handling
pub mod Requests
pub mod Asking
pub mod Daemons
pub mod Waiting
