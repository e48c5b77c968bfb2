-- ===== src/Database.antt =====
-- internal/database: validation of Databases.
pub mod Validation
pub mod Messages
pub mod Laws
