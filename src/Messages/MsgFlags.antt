-- ===== src/Messages/MsgFlags.antt =====
-- `class MsgFlags` of server/bitchatd/messages/message.py, the bits of the first byte of a message.
use bit_chat_pi.Prelude.{ℕ}

abbrev pub is_relay : ℕ
is_relay = 0x01

abbrev pub is_private : ℕ
is_private = 0x02

abbrev pub has_original_sender : ℕ
has_original_sender = 0x04

abbrev pub has_recipient_nick : ℕ
has_recipient_nick = 0x08

abbrev pub has_sender_peer_id : ℕ
has_sender_peer_id = 0x10

abbrev pub has_mentions : ℕ
has_mentions = 0x20

abbrev pub has_channel : ℕ
has_channel = 0x40

abbrev pub is_encrypted : ℕ
is_encrypted = 0x80
