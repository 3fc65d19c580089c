-- ===== src/Setup.antt =====
-- The first run of an instance: the rows of meta (metadb.go), the process memory that mirrors them
-- (metastate.go), the wizard of setup.go, and the middleware of router.go in front of it.
pub mod Domain
pub mod Meta
pub mod Handlers
pub mod Mirrors
pub mod Load
pub mod LoadLaws
pub mod Restart
pub mod Laws
pub mod Routes
