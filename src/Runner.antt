-- ===== src/Runner.antt =====
-- pkg/runner.
pub mod Resume
pub mod Copied
pub mod Whole
pub mod Pending
pub mod Watched
pub mod Jobs
pub mod Heartbeat
pub mod Ended
