-- ===== src/Postgres.antt =====
-- internal/identity/adapters/postgres and the tables of migrations/: the repository over PostgreSQL.
pub mod Tables
pub mod Connection
pub mod Sql
pub mod Inserts
pub mod Selects
pub mod Updates
pub mod Stored
pub mod Registration
pub mod Sessions
pub mod Passwords
pub mod Repository
pub mod Calls
pub mod Effects
pub mod Atomicity
pub mod Accounts
pub mod Tokens
pub mod Lifecycle
pub mod Listing
pub mod Reuse
pub mod Rotation
