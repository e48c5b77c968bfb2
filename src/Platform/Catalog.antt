-- ===== src/Platform/Catalog.antt =====
-- internal/platformctl/catalog.go: the tenant catalog and its validation.
pub mod Data
pub mod Patterns
pub mod Validation
