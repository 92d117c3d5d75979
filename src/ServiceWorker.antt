-- ===== src/ServiceWorker.antt =====
-- Services, and the worker that runs one.
pub mod Defs
pub mod Running
pub mod Daemons
