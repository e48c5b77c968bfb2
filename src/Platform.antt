-- ===== src/Platform.antt =====
-- internal/platformctl: the tenant catalog, the requests to change it, and the changes of the
-- repository's files that they are rendered to.
pub mod Errors
pub mod Named
pub mod Catalog
pub mod Value
pub mod Request
pub mod Change
pub mod Files
pub mod Manifests
pub mod Storage
pub mod Sources
pub mod Operations
pub mod Services
pub mod Finalize
pub mod Render
pub mod Apply
pub mod Laws
