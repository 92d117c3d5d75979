-- ===== src/Socket.antt =====
-- tecc_socket.c, tecc_socket.h: stream sockets over the system calls, which are a parameter.
pub mod Os
pub mod Defs
pub mod Methods
pub mod Counts
pub mod Balance
pub mod Accepting
pub mod Traffic
pub mod Session
pub mod Transfer
