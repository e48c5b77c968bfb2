-- ===== src/Status.antt =====
-- internal/controller: what is observed of the generated children, and the status that the
-- Application controller computes from it.
pub mod Observe
pub mod Set
pub mod Workload
pub mod Canary
pub mod Laws
