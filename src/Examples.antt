-- ===== src/Examples.antt =====
-- The theorems at concrete inputs, and runs of the definitions.
pub mod Buffers
pub mod Maps
pub mod Queues
pub mod Arenas
pub mod Sockets
pub mod Transfers
pub mod Workers
pub mod Daemons
pub mod Signals
pub mod Times
pub mod Servers
pub mod Pools
pub mod Services
