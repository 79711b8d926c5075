-- ===== src/Blobs.antt =====
-- pkg/blobs: the proxy of blobs.
pub mod Sizes
pub mod Classes
pub mod Workers
pub mod Cache
pub mod Upstream
pub mod Proxy
pub mod Delivered
pub mod Served
pub mod Agent
