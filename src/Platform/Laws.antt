-- ===== src/Platform/Laws.antt =====
-- What a rendered change may touch, and what it keeps.
pub mod Posts
pub mod Paths
pub mod Allowed
pub mod Generated
pub mod Removed
pub mod Places
pub mod Rendered
pub mod Names
pub mod Kept
pub mod Edits
pub mod KeptServices
pub mod Removals
pub mod Unique
pub mod Scaffold
pub mod Desired
pub mod Accepted
pub mod Approved
pub mod Applied
pub mod Guarded
