-- ===== src/Net.antt =====
-- The folder net/: sockets, addresses and the protocols over them.
pub mod IpAddr
pub mod Http
pub mod Ntp
pub mod Tcp
pub mod Udp
pub mod Network
pub mod TraceAccumulator
