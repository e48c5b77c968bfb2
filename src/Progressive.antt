-- ===== src/Progressive.antt =====
-- internal/controller/application_progressive.go: the children of an Application, rolling or canary.
pub mod Serving
pub mod Drain
pub mod Server
pub mod Shared
pub mod Routes
pub mod Rolling
pub mod Analysis
pub mod Canary
pub mod Runtime
pub mod Laws
