-- ===== src/Team.antt =====
-- internal/team: validation of Teams and the repository allow-list.
mod Glob
mod Validation
pub mod Messages
pub mod Laws
unfoldable pub use Glob.{path_match}
pub use Validation.{InvalidTeam, TeamOps}
unfoldable pub use Validation.{validate, validate_owners, validate_repositories, repository_allowed}
