-- ===== src/Grpc.antt =====
-- What the clients of a node ask for: `DfsService` of src/app/grpc/server.rs.
pub mod State
pub mod Publish
pub mod Download
pub mod Search
pub mod Service
