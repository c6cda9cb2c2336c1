-- ===== src/Tests/Messages.antt =====
-- Messages through their codec.
use bit_chat_pi.Messages.Fields.{IsShort}
use bit_chat_pi.Messages.Content.{IsContent}
use bit_chat_pi.Text.Utf8.{encode_char, utf8_decode, utf8_encode}
use bit_chat_pi.Bytes.{Bytes, pack, to_be}
use bit_chat_pi.Bytes.Signed.{negsuc, pack_signed}
use bit_chat_pi.Prelude.{
  [], arith, false, length, none, refl, replicate, some, true, ℕ, ◌>>=◌, ◌∷◌, ◌≡◌, ◌≤◌,
}
use bit_chat_pi.Text.{Text, text}
use bit_chat_pi.Messages.{BitchatMessage}
use bit_chat_pi.Messages.Encode.{
  encode_message, flags_of, write_content, write_field, write_mentions, write_u8_str,
}
use bit_chat_pi.Messages.Decode.{decode_message, read_message, read_u8_str}
use bit_chat_pi.Messages.RoundTrip.{IsMessage, carried, decode_message-encode_message}

-- A private message of before 1970 to a nickname that is not ASCII, with two mentions.
abbrev note : BitchatMessage
note = record {
  sender = text "bob";
  content = text "hi";
  id = text "A1";
  timestamp = negsuc 4;
  is_relay = false;
  is_private = true;
  original_sender = some [];
  recipient_nickname = some (0xe9 ∷ []);
  sender_peer_id = none;
  mentions = some (text "al" ∷ text "cy" ∷ []);
  channel = none;
  encrypted_content = none;
  is_encrypted = false;
}

note_encoded :
    encode_message note
    ≡ some (
        0x2a ∷ 255 ∷ 255 ∷ 255 ∷ 255 ∷ 255 ∷ 255 ∷ 255 ∷ 251 ∷ 2 ∷ 65 ∷ 49 ∷ 3 ∷ 98 ∷ 111 ∷ 98 ∷ 0
        ∷ 2 ∷ 104 ∷ 105 ∷ 2 ∷ 0xc3 ∷ 0xa9 ∷ 2 ∷ 2 ∷ 97 ∷ 108 ∷ 2 ∷ 99 ∷ 121 ∷ [])
unfolding encode_message pack_signed write_u8_str utf8_encode write_content pack encode_char
    write_field write_mentions flags_of to_be
note_encoded = refl

-- A nickname that is cut inside a character makes the whole message unreadable.
cut_note :
    (do
      bytes ← encode_message (record note { sender = replicate 128 0xe9 })
      some (decode_message bytes))
    ≡ some none
unfolding encode_message pack_signed write_u8_str utf8_encode write_content pack encode_char
    write_field write_mentions decode_message to_be read_message read_u8_str utf8_decode
cut_note = refl

short :
    (n : ℕ) (s : Text) (bytes : Bytes) → utf8_encode s ≡ some bytes → length bytes ≤ n → IsShort n s
short n s bytes e h = record { bytes = bytes; made = e; small = h }

note-IsMessage : IsMessage note
unfolding utf8_encode encode_char IsContent
note-IsMessage = record {
  timestamp = omega arith;
  id = short 255 (text "A1") (text "A1") refl (omega arith);
  sender = short 255 (text "bob") (text "bob") refl (omega arith);
  content = short 65535 (text "hi") (text "hi") refl (omega arith);
  original_sender = short 255 [] [] refl (omega arith);
  recipient_nickname = short 255 (0xe9 ∷ []) (0xc3 ∷ 0xa9 ∷ []) refl (omega arith);
  sender_peer_id = tt;
  mentions = record {
    few = omega arith;
    short = (
      short 255 (text "al") (text "al") refl (omega arith),
      (short 255 (text "cy") (text "cy") refl (omega arith), tt),
    );
  };
  channel = tt;
}

decode_message-encode_message_example :
    (bytes : Bytes) × (encode_message note ≡ some bytes)
    × (decode_message bytes ≡ some (carried note))
decode_message-encode_message_example = decode_message-encode_message note note-IsMessage
