-- ===== src/Mesh.antt =====
-- The mesh layer: server/bitchatd/mesh.
pub mod Relay
pub mod Fragments
pub mod Peers
pub mod Session
