-- ===== src/Tun.antt =====
-- ghost-tun: the SOCKS5 client, the TCP sessions and the packet processor of tun2socks.
pub mod Socks5
pub mod Session
pub mod Processor
pub mod Device
