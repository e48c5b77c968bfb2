-- ===== src/Status/Laws.antt =====
-- What every computed status satisfies, and when the phase is Healthy.
pub mod Consistent
pub mod Workload
pub mod Canary
pub mod Phases
