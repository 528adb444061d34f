-- ===== src/Download.antt =====
-- Fetching a file from peers, chunk by chunk: src/app/file_download_service.rs and `verify_chunk`
-- of src/app/utils.rs.
pub mod Verify
pub mod Chunk
pub mod Service
pub mod Concurrent
pub mod Scheduler
