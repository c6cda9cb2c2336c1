-- ===== src/Tests/Codecs.antt =====
-- Packets through the codec.
use bit_chat_pi.Prelude.{
  [], arith, false, inr, length, none, refl, replicate, some, true, ℕ, ◌*◌, ◌++◌, ◌∷◌, ◌≡◌, ◌≤◌,
}
use bit_chat_pi.Bytes.{Bytes, be_value, pack, to_be}
use bit_chat_pi.Tests.Zlibs.{run_compress, runs, runs-NoEmpty, runs-ZlibLaws}
use bit_chat_pi.Protocol.Packet.{Packet, new_packet}
use bit_chat_pi.Protocol.Padding.{pad, unpad}
use bit_chat_pi.Protocol.Padding.Laws.{IsBlock, unpad-pad, unpad_shape}
use bit_chat_pi.Protocol.Codec.Encode.{
  compresses, encode, encode_flags, encode_header, encode_payload, encode_route, pad_peer_id,
}
use bit_chat_pi.Protocol.Codec.Decode.{
  decode, decode_raw, expand, read_body, read_header, read_recipient, read_route, read_signature,
}
use bit_chat_pi.Protocol.Codec.RoundTrip.{IsSendable, decode-encode, received}
use bit_chat_pi.Protocol.Codec.Decoded.{IsReceived, decode-IsReceived}
use bit_chat_pi.Protocol.Codec.Limits.{decode_no_bomb, encode_too_long}

abbrev pub ident : ℕ → Bytes
ident n = replicate 8 n

-- A routed packet of version 2 with a recipient, a signature and a payload that compresses.
abbrev pub routed : Packet
routed = record (new_packet 0x02 (ident 1) (replicate 120 65)) {
  timestamp = 1_700_000_000_000;
  recipient_id = some (ident 2);
  signature = some (replicate 64 7);
  route = some (ident 3 ∷ ident 4 ∷ []);
}

abbrev pub plain : Packet
plain = new_packet 0x01 (ident 9) (104 ∷ 105 ∷ [])

encode-plain :
    encode runs 5 plain false
    ≡ some (1 ∷ 1 ∷ 7 ∷ 0 ∷ 0 ∷ 0 ∷ 0 ∷ 0 ∷ 0 ∷ 0 ∷ 5 ∷ 0 ∷ 0 ∷ 2 ∷ (ident 9 ++ (104 ∷ 105 ∷ [])))
unfolding encode encode_payload encode_header compresses encode_flags pad_peer_id pack to_be
    encode_route run_compress
encode-plain = refl

pub routed-IsSendable : IsSendable 0 routed
routed-IsSendable = record {
  version = inr refl;
  type_byte = omega arith;
  ttl_byte = omega arith;
  stamp = omega arith;
  sender = refl;
  recipient = refl;
  route = omega arith;
  signature = refl;
  size = omega arith;
}

decode-encode_example :
    (xs : Bytes) × (encode runs 0 routed true ≡ some xs)
    × (decode runs xs ≡ some (received runs 0 routed))
decode-encode_example = decode-encode runs 0 routed true runs-ZlibLaws routed-IsSendable

abbrev plain_bytes : Bytes
plain_bytes = 1 ∷ 1 ∷ 7 ∷ 0 ∷ 0 ∷ 0 ∷ 0 ∷ 0 ∷ 0 ∷ 0 ∷ 5 ∷ 0 ∷ 0 ∷ 2 ∷ (ident 9 ++ (104 ∷ 105 ∷ []))

abbrev plain_back : Packet
plain_back = record plain { timestamp = 5 }

decode-plain : decode runs plain_bytes ≡ some plain_back
unfolding decode decode_raw read_header read_body read_recipient read_route expand read_signature
    be_value
decode-plain = refl

decode-IsReceived_example : IsReceived plain_back
decode-IsReceived_example = decode-IsReceived runs plain_bytes plain_back decode-plain

decode_no_bomb_example : length plain_back.payload ≤ 50_000 * length plain_bytes
decode_no_bomb_example = decode_no_bomb runs plain_bytes plain_back runs-NoEmpty decode-plain

abbrev long : Packet
long = new_packet 0x02 (ident 1) (replicate 0x1_0000 0)

encode_too_long_example : encode runs 1 long true ≡ none
encode_too_long_example = encode_too_long runs 1 long true refl (omega arith)

unpad-pad_example :
    (unpad (pad (replicate 200 1)) ≡ replicate 200 1) × IsBlock (length (pad (replicate 200 1)))
unpad-pad_example = unpad-pad (replicate 200 1) (omega arith)

unpad_shape_example : (k : ℕ) × (2 ∷ 2 ∷ [] ≡ unpad (2 ∷ 2 ∷ []) ++ replicate k k)
unpad_shape_example = unpad_shape (2 ∷ 2 ∷ [])
