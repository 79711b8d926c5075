-- ===== src/Gateway.antt =====
-- pkg/gateway and internal/format: which requests of clients go where.
pub mod Domain
pub mod Labels
pub mod Paths
pub mod Location
pub mod RoundTrip
pub mod Serve
pub mod Guard
pub mod Listed
