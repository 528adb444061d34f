-- ===== src/Processing.antt =====
-- Splitting a file into chunks before it is published, and putting a downloaded file together:
-- src/app/file_processing/processing.rs and the helpers of src/app/utils.rs that it calls.
pub mod Fs
pub mod Merkle
pub mod Errors
pub mod Split
pub mod Publish
pub mod Restore
pub mod Directory
