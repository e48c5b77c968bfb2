-- ===== src/Boundary.antt =====
-- internal/controller/team_controller.go: the boundary of a Team, which is its Namespace and the
-- policies in it.
pub mod Server
pub mod Status
pub mod Objects
pub mod Deletion
pub mod Watches
pub mod Handler
pub mod Laws
