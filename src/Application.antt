-- ===== src/Application.antt =====
-- internal/application: validation of Applications by the controller.
pub mod Validation
pub mod Deployment
pub mod Messages
pub mod Laws
