-- ===== src/Mesh/Session/Parse.antt =====
-- `_parse_incoming` of server/bitchatd/mesh/session_manager.py: the formats in the order in which
-- they are tried. The first three stand in a `try` each.
use bit_chat_pi.Prelude.{
  Bool, List, Option, [], drop, false, get_elem?, if◌then◌else◌, leb, length, ltb, min, none,
  require, some, suc, take, true, zero, ℕ, ◌&&◌, ◌+◌, ◌-◌, ◌==◌, ◌=?◌, ◌>>=◌, ◌||◌, ◌∷◌, list_eq,
}
use bit_chat_pi.Bytes.{Bytes, from_be, slice}
use bit_chat_pi.Text.{Text}
use bit_chat_pi.Text.Utf8.{ascii_decode, utf8_decode}
use bit_chat_pi.Zlib.{WindowBits, Zlib, any_header, raw_deflate, zlib_format}
use bit_chat_pi.Mesh.Session.Sniff.{find_file, is_known}
use bit_chat_pi.Mesh.Session.Files.{Parsed, receipt_for}

abbrev is_dash_at : ℕ → Text → Bool
is_dash_at i ref = elim (get_elem? ref i) [ none ↦ false | some c ↦ c == b'-' ]

-- A receipt, where the text behind the first byte looks like a UUID.
unfoldable pub parse_receipt : Bytes → Option Parsed
parse_receipt plaintext = do
  _ ← require (leb 37 (length plaintext))
  kind ← get_elem? plaintext 0
  _ ← require (kind == 0x02 || kind == 0x03)
  ref ← ascii_decode (slice plaintext 1 37)
  _ ← require (is_dash_at 8 ref && is_dash_at 13 ref)
  some (receipt_for ref)

-- The text of a standard message: a length and as many bytes.
unfoldable pub parse_content : Bytes → Option Text
parse_content [] = none
parse_content (cont_len ∷ rest) = utf8_decode (take cont_len rest)

-- Flags, length of the identifier, identifier, type and what follows; `none`: another framing, or an
-- identifier that is not ASCII.
unfoldable pub parse_standard : Bytes → Option (Text × ℕ × Bytes)
parse_standard plaintext = do
  _ ← require (leb 41 (length plaintext))
  _ ← require (from_be (slice plaintext 1 3) == 36)
  msg_id ← ascii_decode (slice plaintext 3 39)
  msg_type ← get_elem? plaintext 39
  some (msg_id, msg_type, drop 40 plaintext)

-- The variables of the loop over tagged values.
pub record TransferFields : Type 0 where
  pub fname : Bytes
  pub mime_type : Bytes
  pub file_data : Bytes

unfoldable pub store_field : ℕ → Bytes → TransferFields → TransferFields
store_field tag val t =
    if tag == 0x00
    then record t { fname = val }
    else if tag == 0x03
    then record t { mime_type = val }
    else t

-- The loop, over what is left from the offset on. Each round takes three bytes at least, so the length
-- of the data is enough fuel. A value may be cut off by the end of the data.
unfoldable pub transfer_fields : ℕ → Bytes → TransferFields → TransferFields
unfolding store_field
transfer_fields (suc fuel) (tag ∷ x ∷ y ∷ rest) t = elim (tag == 0x04) [
  | true ↦
      if leb 4 (length (x ∷ y ∷ rest))
      then record t { file_data = take (from_be (take 4 (x ∷ y ∷ rest))) (drop 4 (x ∷ y ∷ rest)) }
      else t
  | false ↦
      let flen = from_be (x ∷ y ∷ []) in
      transfer_fields fuel (drop flen rest) (store_field tag (take flen rest) t)
]
transfer_fields zero rest t = t
transfer_fields (suc fuel) [] t = t
transfer_fields (suc fuel) (tag ∷ []) t = t
transfer_fields (suc fuel) (tag ∷ x ∷ []) t = t

unfoldable pub parse_transfer : Bytes → Option TransferFields
unfolding transfer_fields
parse_transfer plaintext = do
  _ ← require (leb 7 (length plaintext) && take 2 plaintext =? 0x20 ∷ 0x01 ∷ [])
  let t =
      transfer_fields (length plaintext) (drop 2 plaintext)
        (record { fname = []; mime_type = []; file_data = [] })
  _ ← require (ltb 0 (length t.file_data))
  some t

-- The identifier and the contents of a message in the older layout.
unfoldable pub parse_legacy : Bytes → Option (Text × Bytes)
parse_legacy plaintext = do
  _ ← require (leb 14 (length plaintext))
  id_len ← get_elem? plaintext 9
  let end_id = 10 + id_len
  _ ← require (ltb 0 id_len && leb (end_id + 3) (length plaintext))
  msg_id ← ascii_decode (slice plaintext 10 end_id)
  sender_len ← get_elem? plaintext end_id
  let content_start = end_id + 1 + sender_len
  _ ← require (leb (content_start + 2) (length plaintext))
  let content_len = from_be (slice plaintext content_start (content_start + 2))
  let content_data = slice plaintext (content_start + 2) (content_start + 2 + content_len)
  _ ← require (ltb 0 (length content_data))
  some (msg_id, content_data)

-- The first of the offsets at which a known file begins.
unfoldable pub file_at : List ℕ → Bytes → Bytes
file_at [] bytes = bytes
file_at (off ∷ offs) bytes =
    if ltb off (length bytes) && is_known (drop off bytes)
    then drop off bytes
    else file_at offs bytes

abbrev pub or_bytes : Option Bytes → Bytes → Bytes
or_bytes none bytes = bytes
or_bytes (some found) bytes = found

-- The first decompression that succeeds, with what it gives if that is longer than it was.
unfoldable pub decompressed : Zlib → List WindowBits → Bytes → Option Bytes
decompressed z [] plaintext = none
decompressed z (wbits ∷ more) plaintext = elim (z.decompress wbits plaintext) [
  | none ↦ decompressed z more plaintext
  | some dec ↦ if ltb (length plaintext) (length dec) then some dec else none
]

-- `range(min(512, len(data) - 4))`
abbrev pub find_in_512 : Bytes → Option Bytes
find_in_512 bytes = find_file (min 512 (length bytes - 4)) bytes

-- A known file in what the bytes decompress to.
unfoldable pub decompressed_file : Zlib → Bytes → Option Bytes
unfolding decompressed
decompressed_file z plaintext = do
  _ ← require (leb 10 (length plaintext))
  dec ← decompressed z (zlib_format ∷ raw_deflate ∷ any_header ∷ []) plaintext
  find_in_512 dec
