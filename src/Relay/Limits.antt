-- ===== src/Relay/Limits.antt =====
-- The caps of one tenant, `Limits` of pkg/relay/registry.go. Durations are nanoseconds.
use ntwire.Base.{ℕ}

pub record Limits : Type 0 where
  pub handshake_timeout : ℕ
  pub dial_back_timeout : ℕ
  pub max_pending_per_server : ℕ
  pub max_conns_per_server : ℕ
  pub udp_relay_idle_timeout : ℕ
  pub max_udp_relay_sessions_per_server : ℕ
  pub max_registrations_per_minute : ℕ
  pub max_pending_registrations : ℕ
