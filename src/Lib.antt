-- ===== src/Lib.antt =====
-- Tiletopia: verification of the parts of the server and of the tilers that carry its logic.
--
-- The program is a server that stores assets (point clouds, models, terrain, imagery), turns them
-- into 3D Tiles by background jobs and serves the tiles, with accounts, API keys and an upload
-- endpoint that speaks the S3 protocol. A request passes the authorisation middleware; an upload
-- lands in files and a staging ledger; a job is queued for the asset, a tiler writes the tiles, and
-- the job and the asset are settled; scheduled jobs repeat such work.
--
-- Which file models which part:
-- - Auth, Auth/Routes, Auth/Middleware: crates/tiletopia-server/src/auth.rs. `is_public_read`,
--   `route_access`, `authorize_request`, `authorize_api_key` and `auth_middleware` carry the names
--   of the functions; a path is the list of the pieces between its slashes. Auth/Gate holds the
--   proofs. The roles are of users.rs.
-- - ApiKeys, ApiKeys/Limiter: crates/tiletopia-server/src/api_keys.rs. Auth calls `allows`,
--   `expired_at`, `hash_presented_key` and `check_rate_limit`. The limiter's two maps are
--   association lists and every call passes the limiter on. Daily holds the proofs.
-- - Login: `login` and `client_address` of crates/tiletopia-server/src/users.rs with the statements
--   of db.rs that count the attempts; the rows of both tables are lists. Login/Guesses holds the
--   proofs.
-- - JobQueue, JobQueue/Settle, JobQueue/Run: crates/tiletopia-server/src/job_queue.rs with the
--   queries of db.rs that it makes. The state `World` holds the rows, the events that were emitted
--   and how many operations were tried; any operation may fail. JobQueue/Laws, Served and Recovery
--   hold the proofs.
-- - Scheduler, Scheduler/Cron, Scheduler/Runs: crates/tiletopia-server/src/scheduler.rs and the
--   queries of db.rs for scheduled jobs; Scheduler/Settling holds the proofs.
-- - IonUpload, IonUpload/Chunked and IonUpload/Ledger: the body decoder and the staging ledger of
--   crates/tiletopia-server/src/ion_s3_endpoint.rs; ChunkedTurns, ChunkedLaws, ChunkedRoundTrip and
--   Accounts hold the proofs. Interleaved uploads are sequences of steps of a relation.
-- - Octree/Bounds, Octree/Build, Octree/Stats: bounding_volume.rs and octree.rs of
--   crates/tiletopia-core/src; Octree/Tiles, Octree/TileNames and Octree/Pnts: lod.rs and tile.rs
--   there. Contains, Counts, Shape, Spelling and Names hold proofs.
-- - ModelVersions/Retention: `apply_retention` of crates/tiletopia-server/src/model_versions.rs with
--   `delete_asset` of db.rs, on the world of JobQueue and the table of versions; Rows, Kept,
--   Shrinking, Limits and JobEnd hold the proofs. `record_outcome` of JobQueue takes what retention
--   does as a parameter; JobEnd puts the modelled retention there.
-- - ChangeReports/Compare: the comparison of two element stores, `compare_stores` and
--   `ReportWriter` of crates/tiletopia-server/src/change_reports.rs; Merge holds the proofs.
-- - Webhooks/Queue: `WebhookQueue` of crates/tiletopia-server/src/webhooks.rs; Rounds holds the
--   proofs.
-- - Collaboration/Rooms, Presence and Socket: `acquire_room` and `release_room`, `PresenceTracker`,
--   and `handle_socket` of crates/tiletopia-server/src/realtime.rs, with the maps of
--   Collaboration/Maps. Counted, RoomLaws, Releases, Seen and Roster hold the proofs;
--   connections interleave as sequences of steps of a relation and of events.
-- - TerrainTile/Codes, Reorder, Edges, Header and Tile: `encode_quantized_mesh` of
--   crates/tiletopia-server/src/terrain_api.rs and what it calls, with the reading of a tile by a
--   client that follows the quantized-mesh format; Floats is the parameter for f64. Kept and
--   Reading hold proofs.
-- - GlbWriter/Layout, Bin and Container: `compute_layout`, `write_bin` and `write_container` of
--   crates/tiletopia-core/src/glb_writer.rs; Parts and Places hold the proofs.
-- - Prelude: names of the library, tests into Bool, lists over the native numbers, integers, and
--   the result type `Res` with `?` as a chain.
-- A Tests module per part holds runs on small inputs and an instance of each property.
--
-- Fuel and bounds: `build_node` of Octree/Build runs on the levels that are left below `max_depth`,
-- where the source stops by itself; `run` of IonUpload/Chunked runs on one more than the bytes at
-- hand, since every turn that does not end the loop takes a byte; `merge` of ChangeReports/Compare
-- runs on one more than the elements of both stores, of which each turn takes one. Counters that
-- wrap are written with their modulus: u64 in IonUpload/Ledger, the casts to i64 in Scheduler, u32 in
-- Octree/Pnts, GlbWriter and TerrainTile, where an i32 is its 32 bits. Lengths, clocks and
-- identifiers are natural numbers. The times of scheduled jobs lie before the year 10000, where the
-- order of the texts that db.rs compares is that of the times.
--
-- Parameters stand for code outside of the repository or for arithmetic that is not exact: f64
-- (`Coord`, `Seconds`, `Float`, the tolerance of locations), chrono and the
-- cron crate, SHA-256, platform_auth, serde_json, file
-- creation and removal, the answers of webhook receivers; and, for a job, the tilers.
--
-- Not modelled: HTTP parsing and responses beyond what decides access, SQL and its schema, the
-- readers of input formats, mesh tiling, the sampling of terrain, imagery, analysis, exports, the
-- command line and the web interface. They are large, mostly numeric or formatting code, or
-- input and output; the components of the manifest give the reason for each.
mod Prelude
pub mod Scheduler
pub mod IonUpload
pub mod Octree
pub mod JobQueue
pub mod ApiKeys
pub mod Auth
pub mod Login
pub mod TerrainTile
pub mod Collaboration
pub mod GlbWriter
pub mod ModelVersions
pub mod Webhooks
pub mod ChangeReports
