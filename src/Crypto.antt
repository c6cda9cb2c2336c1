-- ===== src/Crypto.antt =====
-- server/bitchatd/crypto.
pub mod Noise
