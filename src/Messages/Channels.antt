-- ===== src/Messages/Channels.antt =====
-- The watch channels (pkg/queue/controller/message.go): how full they are, what cancelling leaves,
-- and who is told what.
pub mod Tidy
pub mod Cancel
pub mod Notices
