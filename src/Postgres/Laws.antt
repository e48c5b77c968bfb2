-- ===== src/Postgres/Laws.antt =====
-- When a Database is deleted, what its backups are, and when it is called Ready.
pub mod Deletion
pub mod Statuses
pub mod Backups
