-- ===== src/ModelVersions.antt =====
-- The versions of a model and their retention, of crates/tiletopia-server/src/model_versions.rs.
pub mod Retention
pub mod Rows
pub mod Kept
pub mod JobEnd
pub mod Shrinking
pub mod Limits
mod Tests
