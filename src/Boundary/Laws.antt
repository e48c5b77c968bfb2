-- ===== src/Boundary/Laws.antt =====
-- What a Team's controller writes and deletes, and when.
pub mod Stages
pub mod Statuses
pub mod Converge
pub mod Deletion
pub mod Watches
