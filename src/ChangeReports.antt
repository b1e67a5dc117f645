-- ===== src/ChangeReports.antt =====
-- What changed between two versions of a model, of crates/tiletopia-server/src/change_reports.rs.
pub mod Compare
pub mod Merge
mod Tests
