-- ===== src/Octree.antt =====
-- The point-cloud tiler: crates/tiletopia-core/src/bounding_volume.rs, octree.rs, lod.rs, tile.rs.
pub mod Bounds
pub mod Build
pub mod Contains
pub mod Counts
pub mod Shape
pub mod Stats
pub mod TileNames
pub mod Tiles
pub mod Spelling
pub mod Names
pub mod Pnts
pub mod Tests
