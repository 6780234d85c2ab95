-- ===== src/Domain.antt =====
-- internal/identity/domain: users, sessions, e-mail addresses and the errors of the service.
pub mod Errors
pub mod Email
pub mod User
