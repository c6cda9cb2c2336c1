-- ===== src/Messages/Encode.antt =====
-- `encode_message` of server/bitchatd/messages/message.py; every exception is `none`.
use bit_chat_pi.Bytes.Signed.{pack_signed}
use bit_chat_pi.Text.Utf8.{utf8_encode}
use bit_chat_pi.Text.{Text}
use bit_chat_pi.Bytes.{Bytes, pack}
use bit_chat_pi.Prelude.{
  Bool, List, Option, [], bit_or, false, if◌then◌else◌, length, none, some, take, true, ℕ, ◌++◌,
  ◌>>=◌, ◌∷◌,
}
use bit_chat_pi.Messages.{BitchatMessage, is_given}
use bit_chat_pi.Messages.MsgFlags.{
  has_channel, has_mentions, has_original_sender, has_recipient_nick, has_sender_peer_id,
  is_encrypted, is_private, is_relay,
}

-- The length has one byte; `pack` cannot fail on what is cut to 255 bytes.
unfoldable pub write_u8_str : Text → Option Bytes
write_u8_str s = do b ← utf8_encode s; some (length (take 255 b) ∷ take 255 b)

unfoldable pub write_u16_bytes : Bytes → Option Bytes
write_u16_bytes bytes = do len ← pack 2 (length (take 65535 bytes)); some (len ++ take 65535 bytes)

unfoldable pub write_u16_str : Text → Option Bytes
unfolding write_u16_bytes
write_u16_str s = do b ← utf8_encode s; write_u16_bytes b

abbrev with_flag : Bool → ℕ → ℕ → ℕ
with_flag test flag flags = if test then bit_or flags flag else flags

-- The flags of the eight tests, in the order of the code.
unfoldable pub flags_of : (relay private sender nick peer mentions channel encrypted : Bool) → ℕ
flags_of relay private sender nick peer mentions channel encrypted =
    with_flag encrypted is_encrypted (
      with_flag channel has_channel (
        with_flag mentions has_mentions (
          with_flag peer has_sender_peer_id (
            with_flag nick has_recipient_nick (
              with_flag sender has_original_sender
                (with_flag private is_private (with_flag relay is_relay 0)))))))

abbrev pub message_flags : BitchatMessage → ℕ
message_flags msg =
    flags_of msg.is_relay msg.is_private (is_given msg.original_sender)
      (is_given msg.recipient_nickname) (is_given msg.sender_peer_id) (is_given msg.mentions)
      (is_given msg.channel) msg.is_encrypted

-- The content, or the encrypted content if there is one that is not empty.
unfoldable pub write_content : Bool → Option Bytes → Text → Option Bytes
unfolding write_u16_bytes write_u16_str
write_content true (some (b ∷ bs)) content = write_u16_bytes (b ∷ bs)
write_content true (some []) content = write_u16_str content
write_content true none content = write_u16_str content
write_content false encrypted content = write_u16_str content

-- An optional text; `None` and the empty text are left out.
unfoldable pub write_field : Option Text → Option Bytes
unfolding write_u8_str
write_field none = some []
write_field (some []) = some []
write_field (some (c ∷ cs)) = write_u8_str (c ∷ cs)

unfoldable pub write_each : List Text → Option Bytes
unfolding write_u8_str
write_each [] = some []
write_each (m ∷ ms) = do b ← write_u8_str m; rest ← write_each ms; some (b ++ rest)

unfoldable pub write_mentions : Option (List Text) → Option Bytes
unfolding write_each
write_mentions none = some []
write_mentions (some []) = some []
write_mentions (some (m ∷ ms)) =
    let entries = take 255 (m ∷ ms) in
    do written ← write_each entries; some (length entries ∷ written)

unfoldable pub encode_message : BitchatMessage → Option Bytes
encode_message msg = do
  timestamp ← pack_signed msg.timestamp
  id ← write_u8_str msg.id
  sender ← write_u8_str msg.sender
  content ← write_content msg.is_encrypted msg.encrypted_content msg.content
  original ← write_field msg.original_sender
  nick ← write_field msg.recipient_nickname
  peer ← write_field msg.sender_peer_id
  mentions ← write_mentions msg.mentions
  channel ← write_field msg.channel
  some (
      message_flags msg
      ∷ (timestamp
          ++ (id
              ++ (sender ++ (content ++ (original ++ (nick ++ (peer ++ (mentions ++ channel)))))))))
