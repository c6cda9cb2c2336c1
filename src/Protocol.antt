-- ===== src/Protocol.antt =====
-- The wire protocol: server/bitchatd/protocol.
pub mod Constants
pub mod MessageType
pub mod Packet
pub mod Padding
pub mod Codec
pub mod Announce
