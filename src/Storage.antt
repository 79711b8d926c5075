-- ===== src/Storage.antt =====
-- pkg/cache: blobs and manifests in the storage.
pub mod Paths
pub mod Driver
pub mod Blobs
pub mod Manifests
pub mod Steps
pub mod Contents
pub mod Relinks
pub mod Links
