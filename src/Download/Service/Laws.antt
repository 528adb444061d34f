-- ===== src/Download/Service/Laws.antt =====
-- What `download` of src/app/file_download_service.rs has brought when it ends.
pub mod Tasks
pub mod Run
pub mod Complete
pub mod Live
