-- ===== src/Manifests.antt =====
-- The cache of manifests: pkg/manifests/manifest_cache.go.
pub mod Imc
pub mod Cache
pub mod Lookup
pub mod Upstream
pub mod Proxy
pub mod Served
pub mod Brought
pub mod Worker
