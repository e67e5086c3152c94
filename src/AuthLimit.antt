-- ===== src/AuthLimit.antt =====
-- What an unauthenticated caller can make a server remember, pkg/authlimit/authlimit.go.
pub mod Nonces
pub mod Sources
