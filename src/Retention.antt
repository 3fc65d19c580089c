-- ===== src/Retention.antt =====
-- retention.go: old rows are deleted in batches.
pub mod Prune
pub mod PruneLaws
pub mod Sessions
