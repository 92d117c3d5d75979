-- ===== src/TcpClient.antt =====
-- tecc_tcp_client.c, tecc_tcp_client.h: a client over a socket, as a service.
pub mod Defs
pub mod Lifecycle
pub mod Exchange
