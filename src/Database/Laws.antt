-- ===== src/Database/Laws.antt =====
-- The properties of the validation.
pub mod Retention
pub mod Accepted
