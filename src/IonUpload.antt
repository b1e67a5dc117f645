-- ===== src/IonUpload.antt =====
-- The S3 endpoint that staged uploads go through:
-- crates/tiletopia-server/src/ion_s3_endpoint.rs.
pub mod Chunked
pub mod ChunkedTurns
pub mod ChunkedLaws
pub mod ChunkedRoundTrip
pub mod Ledger
pub mod Accounts
pub mod Tests
