-- ===== src/Server.antt =====
-- ghost-server: one connection of a client.
pub mod Handler
pub mod Reality
pub mod Start
