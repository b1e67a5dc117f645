-- ===== src/GlbWriter.antt =====
-- The binary part and the container of a glTF file, of crates/tiletopia-core/src/glb_writer.rs.
pub mod Layout
pub mod Bin
pub mod Parts
pub mod Places
pub mod Container
mod Tests
