-- ===== src/Application.antt =====
-- internal/identity/application/service.go: the use cases of the service.
pub mod Service
pub mod Metadata
pub mod Login
pub mod Accounts
pub mod Authentication
pub mod Admission
pub mod Enrolment
pub mod Recovery
