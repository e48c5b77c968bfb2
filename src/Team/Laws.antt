-- ===== src/Team/Laws.antt =====
-- What a Team's owners and its allow-list mean.
pub mod Owners
pub mod Wildcard
