-- ===== src/Messages/RoundTrip.antt =====
-- A message that is encoded comes back.
use bit_chat_pi.Messages.Flags.{message_flags-IsFlags}
use bit_chat_pi.Bytes.{Bytes}
use bit_chat_pi.Messages.Content.{IsContent, carried_content, write_content-Read}
use bit_chat_pi.Bytes.Signed.{IsInt64, unpack_signed-pack_signed}
use bit_chat_pi.Prelude.{
  IsOptional, [], ap, append-nil, arith, drop-append, leb, length, length-append, refl, some, suc,
  sym, take-append, true, ◌++◌, ◌∙◌, ◌∷◌, ◌≡◌,
}
use bit_chat_pi.Messages.{BitchatMessage, is_given}
use bit_chat_pi.Messages.Encode.{encode_message, message_flags}
use bit_chat_pi.Messages.Decode.{decode_message, read_field, read_message}
use bit_chat_pi.Messages.Fields.{
  IsMentions, IsShort, carried_mentions, carried_text, write_field-Read, write_mentions-Read,
  write_u8_str-Read,
}

-- The timestamp has eight bytes, each text fits in its length field, and there are at most 255 mentions.
pub record IsMessage (msg : BitchatMessage) : Type 0 where
  pub timestamp : IsInt64 msg.timestamp
  pub id : IsShort 255 msg.id
  pub sender : IsShort 255 msg.sender
  pub content : IsContent msg.is_encrypted msg.encrypted_content msg.content
  pub original_sender : IsOptional (IsShort 255) msg.original_sender
  pub recipient_nickname : IsOptional (IsShort 255) msg.recipient_nickname
  pub sender_peer_id : IsOptional (IsShort 255) msg.sender_peer_id
  pub mentions : IsOptional IsMentions msg.mentions
  pub channel : IsOptional (IsShort 255) msg.channel

-- The message that arrives: empty texts and lists are absent, and there is either a content or an
-- encrypted content.
unfoldable pub carried : BitchatMessage → BitchatMessage
unfolding carried_content carried_text carried_mentions
carried msg = record msg {
  content = (carried_content msg.is_encrypted msg.encrypted_content msg.content).0;
  encrypted_content = (carried_content msg.is_encrypted msg.encrypted_content msg.content).1;
  original_sender = carried_text msg.original_sender;
  recipient_nickname = carried_text msg.recipient_nickname;
  sender_peer_id = carried_text msg.sender_peer_id;
  mentions = carried_mentions msg.mentions;
  channel = carried_text msg.channel;
}

-- Every message that fits is encoded, and what is decoded is that message as it is carried.
pub decode_message-encode_message :
    (msg : BitchatMessage)
    → IsMessage msg
    → (bytes : Bytes) × (encode_message msg ≡ some bytes)
      × (decode_message bytes ≡ some (carried msg))
unfolding encode_message decode_message read_message carried
decode_message-encode_message msg h =
    let (time, tm, tl, tb) = unpack_signed-pack_signed msg.timestamp h.timestamp in
    let id = write_u8_str-Read msg.id h.id in
    let sender = write_u8_str-Read msg.sender h.sender in
    let content = write_content-Read msg.is_encrypted msg.encrypted_content msg.content h.content in
    let original = write_field-Read msg.original_sender h.original_sender in
    let nick = write_field-Read msg.recipient_nickname h.recipient_nickname in
    let peer = write_field-Read msg.sender_peer_id h.sender_peer_id in
    let mentions = write_mentions-Read msg.mentions h.mentions in
    let channel = write_field-Read msg.channel h.channel in
    let flags = message_flags-IsFlags msg in
    let r8 = channel.bytes in
    let last : read_field (is_given msg.channel) r8 ≡ some (carried_text msg.channel, []) =
      ap (read_field (is_given msg.channel)) (sym (append-nil r8)) ∙ channel.back [] in
    let r7 = mentions.bytes ++ r8 in
    let r6 = peer.bytes ++ r7 in
    let r5 = nick.bytes ++ r6 in
    let r4 = original.bytes ++ r5 in
    let r3 = content.bytes ++ r4 in
    let r2 = sender.bytes ++ r3 in
    let r1 = id.bytes ++ r2 in
    let long : leb 13 (suc (length (time ++ r1))) ≡ true = ground (
      arith,
      tl,
      length-append time r1,
      length-append id.bytes r2,
      id.long,
      length-append sender.bytes r3,
      sender.long,
      length-append content.bytes r4,
      content.long,
    ) in
    (
      message_flags msg ∷ (time ++ r1),
      rw
          (
            tm, id.made, sender.made, content.made, original.made, nick.made, peer.made,
            mentions.made, channel.made,
          )
          refl,
      rw
          (
            long,
            take-append 8 time r1 tl,
            drop-append 8 time r1 tl,
            tb,
            flags.relay,
            flags.private,
            flags.sender,
            flags.nick,
            flags.peer,
            flags.mentions,
            flags.channel,
            flags.encrypted,
            id.back r2,
            sender.back r3,
            content.back r4,
            original.back r5,
            nick.back r6,
            peer.back r7,
            mentions.back r8,
            last,
          )
          refl,
    )
