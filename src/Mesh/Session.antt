-- ===== src/Mesh/Session.antt =====
-- server/bitchatd/mesh/session_manager.py: the state and handlers of a node towards its peers.
pub mod Payload
pub mod Sniff
pub mod State
pub mod Outgoing
pub mod Announces
pub mod Pending
pub mod Handshake
pub mod Files
pub mod Parse
pub mod Incoming
pub mod Encrypted
pub mod Packets
pub mod Commands
pub mod Invariant
pub mod Received
pub mod Delivery
