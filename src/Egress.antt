-- ===== src/Egress.antt =====
-- What a tunnel may reach: the destination filter of pkg/socks/filter.go and the policies of
-- pkg/server/policy.go that use it.
pub mod Filter
pub mod Policy
