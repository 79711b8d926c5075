-- ===== src/Seeking.antt =====
-- The reader that can seek: internal/seeker/seeker.go.
pub mod Source
pub mod Seeker
pub mod Alignment
