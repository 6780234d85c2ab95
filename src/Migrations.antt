-- ===== src/Migrations.antt =====
-- migrations: the loader of the files and the runner.
pub mod Loader
pub mod Runner
