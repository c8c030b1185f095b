-- ===== src/Client.antt =====
-- ghost-client: the SOCKS5 inbound and the client's end of the tunnel.
pub mod Fragment
pub mod Socks
pub mod UserId
pub mod Proxy
pub mod Connect
pub mod Reality
pub mod Pinning
