-- ===== src/Mesh/Session/Incoming/RoundTrip.antt =====
-- A private message that one node encodes is the message that the other one reads.
use bit_chat_pi.Prelude.{
  Bool-cases, ap, arith, drop, drop-append, drop-drop, get_elem?, get_elem?-append, inl, inr, leb,
  length, length-append, lt→ltb, none, refl, some, sym, take, take-append, take_whole, true, ◌++◌,
  ◌<◌, ◌∙◌, ◌∷◌, ◌≡◌, list_eq,
}
use bit_chat_pi.Bytes.{Bytes, be_value, pack, to_be}
use bit_chat_pi.Text.{Text}
use bit_chat_pi.Text.Utf8.{utf8_encode}
use bit_chat_pi.Text.Utf8.RoundTrip.{
  IsAscii, ascii_decode_ascii, utf8_decode-utf8_encode, utf8_encode_ascii,
}
use bit_chat_pi.Mesh.Session.Payload.{encode_message_payload}
use bit_chat_pi.Crypto.Noise.{NoiseLibrary}
use bit_chat_pi.Mesh.Session.State.{Environment, Manager}
use bit_chat_pi.Mesh.Session.Parse.{parse_content, parse_receipt, parse_standard}
use bit_chat_pi.Mesh.Session.Incoming.{parse_incoming, receive_standard}
use bit_chat_pi.Mesh.Session.Files.{text_message}

-- The bytes of a message whose identifier is that of a UUID.
abbrev pub framed : Text → Bytes → Bytes
framed msg_id content_b = 0x01 ∷ 0 ∷ 36 ∷ (msg_id ++ 1 ∷ length content_b ∷ content_b)

module _ (msg_id content : Text) (content_b : Bytes) (ascii : IsAscii msg_id)
    (uuid : length msg_id ≡ 36) (coded : utf8_encode content ≡ some content_b)
    (short : length content_b < 256) where
  pub encode_message_payload-framed :
      encode_message_payload content msg_id ≡ some (framed msg_id content_b)
  unfolding encode_message_payload pack to_be
  encode_message_payload-framed =
      rw (utf8_encode_ascii msg_id ascii, coded, uuid, lt→ltb (length content_b) 256 short)
        (ap (λ n. some (0x01 ∷ 0 ∷ 36 ∷ (msg_id ++ 1 ∷ n ∷ content_b))) (omega arith))

  parse_receipt-framed : parse_receipt (framed msg_id content_b) ≡ none
  unfolding parse_receipt
  parse_receipt-framed = elim (Bool-cases (leb 37 (length (framed msg_id content_b)))) [
    | inl long ↦ rw long refl
    | inr other ↦ rw other refl
  ]

  parse_standard-framed :
      parse_standard (framed msg_id content_b) ≡ some (msg_id, 1, length content_b ∷ content_b)
  unfolding parse_standard be_value
  parse_standard-framed =
      let rest = 1 ∷ length content_b ∷ content_b in
      let long : leb 41 (length (framed msg_id content_b)) ≡ true =
        ground (arith, length-append msg_id rest) in
      let id : take 36 (msg_id ++ rest) ≡ msg_id = take-append 36 msg_id rest uuid in
      let kind : get_elem? (msg_id ++ rest) 36 ≡ some 1 =
        get_elem?-append msg_id rest 36 0 (omega arith) in
      let back : drop 37 (msg_id ++ rest) ≡ length content_b ∷ content_b =
        sym (drop-drop 36 1 37 (msg_id ++ rest) refl)
        ∙ ap (drop 1) (drop-append 36 msg_id rest uuid) in
      rw (long, id, ascii_decode_ascii msg_id ascii, kind, back) refl

  parse_content-framed : parse_content (length content_b ∷ content_b) ≡ some content
  unfolding parse_content
  parse_content-framed =
      rw (take_whole (length content_b) content_b (omega arith))
        (utf8_decode-utf8_encode content content_b coded)

  -- Reading it has no effect.
  pub parse_incoming-framed :
      (env : Environment) (lib : NoiseLibrary) (s : Manager lib)
      → parse_incoming env lib (framed msg_id content_b) s
        ≡ (some (some (text_message msg_id content)), s)
  unfolding parse_incoming receive_standard
  parse_incoming-framed env lib s =
      rw (parse_receipt-framed, parse_standard-framed, receive_standard, parse_content-framed) refl

  -- A text of at most 255 bytes is encoded, and the payload is read as that text and identifier, without
  -- an effect on the state of the reader.
  pub parse_incoming-encode_message_payload :
      (env : Environment) (lib : NoiseLibrary) (s : Manager lib)
      → (payload : Bytes) × (encode_message_payload content msg_id ≡ some payload)
        × (parse_incoming env lib payload s ≡ (some (some (text_message msg_id content)), s))
  parse_incoming-encode_message_payload env lib s =
      (framed msg_id content_b, encode_message_payload-framed, parse_incoming-framed env lib s)
