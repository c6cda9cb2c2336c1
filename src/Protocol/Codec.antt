-- ===== src/Protocol/Codec.antt =====
-- server/bitchatd/protocol/codec.py: a packet to bytes and back. Every exception inside `encode` and
-- `_decode_raw` is caught and becomes `None`, so each raising call is an `Option` here.
pub mod Encode
pub mod Decode
pub mod Flags
pub mod Readers
pub mod Headers
pub mod Payload
pub mod Parts
pub mod RoundTrip
pub mod Decoded
pub mod Limits
