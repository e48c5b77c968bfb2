-- ===== src/Postgres.antt =====
-- internal/controller/database_controller.go: the PostgreSQL cluster of a Database, its backups and the
-- objects around it.
pub mod Server
pub mod Backups
pub mod Status
pub mod Objects
pub mod Deletion
pub mod Watches
pub mod Handler
pub mod Laws
