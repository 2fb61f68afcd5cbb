-- ===== src/Auth.antt =====
-- Authentication of the single local admin (apps/sp-api/src/auth).
pub mod LoginAttempts
pub mod Records
pub mod Sessions
pub mod SessionCookie
pub mod Accounts
