-- ===== src/Reconcile.antt =====
-- internal/controller/application_controller.go: the reconciliation of an Application.
pub mod Cluster
pub mod Tenancy
pub mod Patch
pub mod Rejection
pub mod Gate
pub mod Handler
pub mod Watches
pub mod Laws
