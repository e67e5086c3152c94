-- ===== src/Server.antt =====
-- The server's own state, pkg/server.
pub mod Sessions
pub mod RelayPool
