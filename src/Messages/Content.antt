-- ===== src/Messages/Content.antt =====
-- The content of a message, written and read, and the eight flags.
use bit_chat_pi.Text.Utf8.RoundTrip.{utf8_decode-utf8_encode}
use bit_chat_pi.Text.Utf8.{utf8_encode}
use bit_chat_pi.Text.{Text}
use bit_chat_pi.Prelude.{
  Bool, Option, [], arith, drop-append, false, leb, length, length-append, none, refl, some,
  take-append, take_whole, true, ◌++◌, ◌∙◌, ◌∷◌, ◌≡◌, ◌≤◌,
}
use bit_chat_pi.Bytes.{Bytes, from_be, from_be-to_be, length-to_be, pack_fits, to_be}
use bit_chat_pi.Messages.Encode.{write_content, write_u16_bytes, write_u16_str}
use bit_chat_pi.Messages.Decode.{content_parts, read_content}
use bit_chat_pi.Messages.Fields.{IsShort}

-- What becomes of the content and the encrypted content: where a message is said to be encrypted and
-- has no encrypted content, the bytes of its content are taken for it.
unfoldable pub carried_content : Bool → Option Bytes → Text → Text × Option Bytes
carried_content false encrypted content = (content, none)
carried_content true none content = ([], utf8_encode content)
carried_content true (some []) content = ([], utf8_encode content)
carried_content true (some (b ∷ bs)) content = ([], some (b ∷ bs))

-- What is written as the content has at most 65535 bytes.
unfoldable pub IsContent : Bool → Option Bytes → Text → Type 0
IsContent false encrypted content = IsShort 65535 content
IsContent true none content = IsShort 65535 content
IsContent true (some []) content = IsShort 65535 content
IsContent true (some (b ∷ bs)) content = length (b ∷ bs) ≤ 65535

-- As `Read`, for the reader of the content and the encrypted content.
pub record ReadContent (encrypted : Bool) (written : Option Bytes) (value : Text × Option Bytes)
    : Type 0 where
  pub bytes : Bytes
  pub made : written ≡ some bytes
  pub long : 2 ≤ length bytes
  pub back : (rest : Bytes) → read_content encrypted (bytes ++ rest) ≡ some (value.0, value.1, rest)

read_content_sized :
    (encrypted : Bool) (body rest : Bytes)
    → length body ≤ 65535
    → read_content encrypted ((to_be 2 (length body) ++ body) ++ rest)
      ≡ content_parts encrypted body rest
unfolding read_content to_be
read_content_sized encrypted body rest h =
    let n = length body in
    let size : from_be (to_be 2 n) ≡ n = from_be-to_be 2 n (omega arith) in
    let fits : leb n (length (body ++ rest)) ≡ true = ground (arith, length-append body rest) in
    rw (size, fits, take-append n body rest refl, drop-append n body rest refl) refl

write_u16_bytes_lem :
    (body : Bytes)
    → length body ≤ 65535
    → write_u16_bytes body ≡ some (to_be 2 (length body) ++ body)
unfolding write_u16_bytes
write_u16_bytes_lem body h =
    rw (take_whole 65535 body h, pack_fits 2 (length body) (omega arith)) refl

sized-Read :
    (encrypted : Bool) (body : Bytes) (value : Text × Option Bytes) (written : Option Bytes)
    → length body ≤ 65535
    → written ≡ write_u16_bytes body
    → ((rest : Bytes) → content_parts encrypted body rest ≡ some (value.0, value.1, rest))
    → ReadContent encrypted written value
sized-Read encrypted body value written h e k = record {
  bytes = to_be 2 (length body) ++ body;
  made = e ∙ write_u16_bytes_lem body h;
  long = omega (arith, length-append (to_be 2 (length body)) body, length-to_be 2 (length body));
  back = λ rest. read_content_sized encrypted body rest h ∙ k rest;
}

text-Read :
    (encrypted : Bool) (content : Text) (value : Text × Option Bytes)
    → (h : IsShort 65535 content)
    → ((rest : Bytes) → content_parts encrypted h.bytes rest ≡ some (value.0, value.1, rest))
    → ReadContent encrypted (write_u16_str content) value
unfolding write_u16_str
text-Read encrypted content value h k =
    sized-Read encrypted h.bytes value (write_u16_str content) h.small (rw h.made refl) k

pub write_content-Read :
    (encrypted : Bool) (given : Option Bytes) (content : Text)
    → IsContent encrypted given content
    → ReadContent encrypted
        (write_content encrypted given content)
        (carried_content encrypted given content)
unfolding write_content carried_content IsContent content_parts
write_content-Read false given content h =
    text-Read false content (content, none) h
      λ rest. rw (utf8_decode-utf8_encode content h.bytes h.made) refl
write_content-Read true none content h =
    text-Read true content ([], utf8_encode content) h λ rest. rw h.made refl
write_content-Read true (some []) content h =
    text-Read true content ([], utf8_encode content) h λ rest. rw h.made refl
write_content-Read true (some (b ∷ bs)) content h =
    sized-Read true (b ∷ bs) ([], some (b ∷ bs)) (write_u16_bytes (b ∷ bs)) h refl λ rest. refl
