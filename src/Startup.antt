-- ===== src/Startup.antt =====
-- How a node starts and stops: src/app/server.rs, src/app/cli/mod.rs, src/app/p2p/config.rs and the
-- start of src/app/p2p/service.rs.
pub mod Errors
pub mod Config
pub mod Keypair
pub mod Bootstrap
pub mod Server
pub mod Network
pub mod Main
pub mod Loop
