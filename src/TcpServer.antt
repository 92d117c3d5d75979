-- ===== src/TcpServer.antt =====
-- The TCP server.
pub mod Defs
pub mod Clients
pub mod Lifecycle
