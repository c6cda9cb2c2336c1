-- ===== src/Messages/Decode.antt =====
-- `decode_message` of server/bitchatd/messages/message.py, over what is left of the data from the
-- offset on. `none` is an exception, which the code catches; a reader's `None` is a result.
use bit_chat_pi.Protocol.Codec.Decode.{has_flag}
use bit_chat_pi.Text.Utf8.{utf8_decode}
use bit_chat_pi.Text.{Text}
use bit_chat_pi.Bytes.{Bytes, from_be}
use bit_chat_pi.Bytes.Signed.{unpack_signed, ℤ}
use bit_chat_pi.Prelude.{
  Bool, List, Option, [], drop, false, if◌then◌else◌, leb, length, ltb, none, require, some, suc,
  take, true, zero, ℕ, ◌&&◌, ◌>>=◌, ◌∷◌,
}
use bit_chat_pi.Messages.{BitchatMessage}
use bit_chat_pi.Messages.MsgFlags.{
  has_channel, has_mentions, has_original_sender, has_recipient_nick, has_sender_peer_id,
  is_encrypted, is_private, is_relay,
}

unfoldable pub read_u8_str : Bytes → Option (Option Text × Bytes)
read_u8_str [] = some (none, [])
read_u8_str (length_of ∷ rest) =
    if leb length_of (length rest)
    then (do s ← utf8_decode (take length_of rest); some (some s, drop length_of rest))
    else some (none, rest)

-- The content and the encrypted content, of which one is read.
unfoldable pub content_parts : Bool → Bytes → Bytes → Option (Text × Option Bytes × Bytes)
content_parts true body bytes = some ([], some body, bytes)
content_parts false body bytes = do content ← utf8_decode body; some (content, none, bytes)

unfoldable pub read_content : Bool → Bytes → Option (Text × Option Bytes × Bytes)
unfolding content_parts
read_content encrypted [] = none
read_content encrypted (b ∷ []) = none
read_content encrypted (b ∷ c ∷ rest) =
    let n = from_be (b ∷ c ∷ []) in
    if leb n (length rest) then content_parts encrypted (take n rest) (drop n rest) else none

-- An optional text, if its flag is set and there are bytes left.
unfoldable pub read_field : Bool → Bytes → Option (Option Text × Bytes)
unfolding read_u8_str
read_field flag bytes =
    if flag && ltb 0 (length bytes) then read_u8_str bytes else some (none, bytes)

abbrev pub listed_mention : Option Text → List Text → List Text
listed_mention none ms = ms
listed_mention (some m) ms = m ∷ ms

-- The loop over the mentions, which ends with the data; one that does not fit is left out.
unfoldable pub read_each : ℕ → Bytes → Option (List Text × Bytes)
unfolding read_u8_str
read_each zero bytes = some ([], bytes)
read_each (suc n) [] = some ([], [])
read_each (suc n) (b ∷ bs) = do
  (m, bytes) ← read_u8_str (b ∷ bs)
  (ms, bytes) ← read_each n bytes
  some (listed_mention m ms, bytes)

-- `if not mentions: mentions = None`
abbrev pub unless_empty : List Text → Option (List Text)
unless_empty [] = none
unless_empty (m ∷ ms) = some (m ∷ ms)

unfoldable pub read_mentions : Bool → Bytes → Option (Option (List Text) × Bytes)
unfolding read_each
read_mentions false bytes = some (none, bytes)
read_mentions true [] = some (none, [])
read_mentions true (count ∷ bytes) = do
  (ms, bytes) ← read_each count bytes
  some (unless_empty ms, bytes)

-- What is behind the timestamp.
unfoldable pub read_message : ℕ → ℤ → Bytes → Option BitchatMessage
read_message flags timestamp bytes = do
  (msg_id, bytes) ← read_u8_str bytes
  id ← msg_id
  (sent_by, bytes) ← read_u8_str bytes
  sender ← sent_by
  let encrypted = has_flag flags is_encrypted
  (content, encrypted_content, bytes) ← read_content encrypted bytes
  (original_sender, bytes) ← read_field (has_flag flags has_original_sender) bytes
  (recipient_nickname, bytes) ← read_field (has_flag flags has_recipient_nick) bytes
  (sender_peer_id, bytes) ← read_field (has_flag flags has_sender_peer_id) bytes
  (mentions, bytes) ← read_mentions (has_flag flags has_mentions) bytes
  (channel, bytes) ← read_field (has_flag flags has_channel) bytes
  some (record {
    sender = sender;
    content = content;
    id = id;
    timestamp = timestamp;
    is_relay = has_flag flags is_relay;
    is_private = has_flag flags is_private;
    original_sender = original_sender;
    recipient_nickname = recipient_nickname;
    sender_peer_id = sender_peer_id;
    mentions = mentions;
    channel = channel;
    encrypted_content = encrypted_content;
    is_encrypted = encrypted;
  })

unfoldable pub decode_message : Bytes → Option BitchatMessage
decode_message [] = none
decode_message (flags ∷ bytes) = do
  _ ← require (leb 13 (suc (length bytes)))
  read_message flags (unpack_signed (take 8 bytes)) (drop 8 bytes)
