-- ===== src/Slugs.antt =====
-- generateSlug of db.go, over the Unicode tables that strings.ToLower and the class \p{L} read, and
-- the services that services.go names with it.
pub mod Decimal
pub mod Generate
pub mod Fresh
