-- ===== src/Security.antt =====
-- The security component of the platform server (server/src/security/).
pub mod Lockout
pub mod ClientIp
mod Tests
