-- ===== src/Protocol/MessageType.antt =====
-- `class MessageType` of server/bitchatd/protocol/constants.py.
use bit_chat_pi.Prelude.{ℕ}

abbrev pub announce : ℕ
announce = 0x01

abbrev pub message : ℕ
message = 0x02

abbrev pub leave : ℕ
leave = 0x03

abbrev pub noise_handshake : ℕ
noise_handshake = 0x10

abbrev pub noise_encrypted : ℕ
noise_encrypted = 0x11

abbrev pub fragment : ℕ
fragment = 0x20

abbrev pub request_sync : ℕ
request_sync = 0x21

abbrev pub file_transfer : ℕ
file_transfer = 0x22
