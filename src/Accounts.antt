-- ===== src/Accounts.antt =====
-- The users of the registry and their transactions: pkg/auth/service/user.go.
pub mod Session
pub mod Users
pub mod Atomic
