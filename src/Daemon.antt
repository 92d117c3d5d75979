-- ===== src/Daemon.antt =====
-- tecc_daemon.h: the interface of long-lived components.
pub mod Defs
