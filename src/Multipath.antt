-- ===== src/Multipath.antt =====
-- The multipath transport, pkg/wstransport.
pub mod Transports
pub mod Candidate
pub mod Scheduler
pub mod Duplicates
pub mod PathMtu
pub mod RateLimiter
pub mod Bind
