-- ===== src/TerrainTile.antt =====
-- Terrain tiles of crates/tiletopia-server/src/terrain_api.rs, as `encode_quantized_mesh` writes
-- them.
pub mod Codes
pub mod Reorder
pub mod Kept
pub mod Edges
pub mod Floats
pub mod Header
pub mod Tile
pub mod Reading
mod Tests
