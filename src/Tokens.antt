-- ===== src/Tokens.antt =====
-- pkg/token and pkg/auth: who may fetch what.
pub mod Token
pub mod Authenticator
pub mod Registry
pub mod Manager
pub mod Generator
pub mod Cached
pub mod Allowed
pub mod Issued
