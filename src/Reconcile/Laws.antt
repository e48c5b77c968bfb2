-- ===== src/Reconcile/Laws.antt =====
-- The properties of the reconciliation.
pub mod Tenancy
pub mod Admission
pub mod Published
pub mod Effects
pub mod Times
pub mod Patch
pub mod Identity
