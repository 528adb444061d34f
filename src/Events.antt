-- ===== src/Events.antt =====
-- The node's side of the peer-to-peer network: src/app/p2p/events.rs.
pub mod Address
pub mod State
pub mod Log
pub mod Commands
pub mod Providers
pub mod Serving
pub mod Search
pub mod Publishing
pub mod Discovery
pub mod Swarm
