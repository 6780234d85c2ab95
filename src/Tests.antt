-- ===== src/Tests.antt =====
-- Runs of the code on a small database, and the theorems at these inputs.
mod Fixtures
mod Postgres
mod Service
mod Listing
mod Security
mod Operations
mod Migrations
