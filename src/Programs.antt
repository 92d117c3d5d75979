-- ===== src/Programs.antt =====
-- The example programs.
pub mod WorkerMain
pub mod RequestMain
pub mod ServerMain
pub mod Ends
pub mod Serving
pub mod Requesting
