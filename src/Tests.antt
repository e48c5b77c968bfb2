-- ===== src/Tests.antt =====
-- The properties at concrete inputs.
mod Data
mod Validations
mod Provenance
mod Statuses
mod Reconciliation
mod Databases
mod Serving
mod Children
mod Boundaries
mod Managed
mod Catalogs
mod Requests
