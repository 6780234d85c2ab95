-- ===== src/Postgres/Tokens.antt =====
-- One-time tokens work once, and a password that is changed or reset ends every session.
pub mod Once
pub mod Replacement
pub mod Sessions
