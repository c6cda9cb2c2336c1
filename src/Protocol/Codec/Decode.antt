-- ===== src/Protocol/Codec/Decode.antt =====
-- `decode`, `_decode_raw` and `_try_decompress` of server/bitchatd/protocol/codec.py. A reader takes
-- the input and the offset, and returns what it read with the next offset.
use bit_chat_pi.Prelude.{
  Bool, List, Option, [], bit_and, drop, get_elem?, if◌then◌else◌, leb, length, ltb, none, not,
  require, some, suc, zero, ℕ, ◌&&◌, ◌*◌, ◌+◌, ◌==◌, ◌>>=◌, ◌||◌, ◌∷◌,
}
use bit_chat_pi.Bytes.{Bytes, from_be, slice}
use bit_chat_pi.Zlib.{Zlib, any_header, raw_deflate, zlib_format}
use bit_chat_pi.Protocol.Constants.{
  has_recipient, has_route, has_signature, header_v1_size, header_v2_size, is_compressed,
  max_compression_ratio, max_payload_length, peer_id_size,
}
use bit_chat_pi.Protocol.Packet.{Packet}
use bit_chat_pi.Protocol.Padding.{unpad}

-- `struct.unpack_from` of one unsigned integer of `w` bytes.
unfoldable pub unpack : ℕ → Bytes → ℕ → Option ℕ
unpack w xs o = do _ ← require (leb (o + w) (length xs)); some (from_be (slice xs o (o + w)))

abbrev pub has_flag : ℕ → ℕ → Bool
has_flag flags flag = not (bit_and flags flag == 0)

-- What the fixed part holds, and the offset behind it.
pub record Header : Type 0 where
  pub version : ℕ
  pub type : ℕ
  pub ttl : ℕ
  pub timestamp : ℕ
  pub flags : ℕ
  pub payload_len : ℕ
  pub offset : ℕ

-- The payload length: 4 bytes behind the flags in version 2, or 2 bytes.
unfoldable pub read_length : ℕ → Bytes → Option (ℕ × ℕ)
read_length version xs =
    if leb 2 version
    then (do
      _ ← require (leb (header_v2_size + peer_id_size) (length xs))
      payload_len ← unpack 4 xs 12
      some (payload_len, header_v2_size))
    else (do payload_len ← unpack 2 xs 12; some (payload_len, header_v1_size))

unfoldable pub read_header : Bytes → Option Header
unfolding read_length unpack
read_header xs = do
  _ ← require (leb (header_v1_size + peer_id_size) (length xs))
  version ← get_elem? xs 0
  _ ← require (version == 1 || version == 2)
  type ← get_elem? xs 1
  ttl ← get_elem? xs 2
  timestamp ← unpack 8 xs 3
  flags ← get_elem? xs 11
  (payload_len, offset) ← read_length version xs
  _ ← require (leb payload_len max_payload_length)
  some (record {
    version = version;
    type = type;
    ttl = ttl;
    timestamp = timestamp;
    flags = flags;
    payload_len = payload_len;
    offset = offset;
  })

unfoldable pub read_id : Bytes → ℕ → Option (Bytes × ℕ)
read_id xs o = do
  _ ← require (leb (o + peer_id_size) (length xs))
  some (slice xs o (o + peer_id_size), o + peer_id_size)

unfoldable pub read_recipient : ℕ → Bytes → ℕ → Option (Option Bytes × ℕ)
unfolding read_id
read_recipient flags xs o =
    if has_flag flags has_recipient
    then (do (id, o') ← read_id xs o; some (some id, o'))
    else some (none, o)

-- `for _ in range(hop_count)`
unfoldable pub read_hops : ℕ → Bytes → ℕ → Option (List Bytes × ℕ)
unfolding read_id
read_hops zero xs o = some ([], o)
read_hops (suc count) xs o = do
  (hop, o') ← read_id xs o
  (hops, o'') ← read_hops count xs o'
  some (hop ∷ hops, o'')

unfoldable pub read_route : ℕ → ℕ → Bytes → ℕ → Option (Option (List Bytes) × ℕ)
unfolding read_hops
read_route flags version xs o =
    if has_flag flags has_route && leb 2 version
    then (do
      _ ← require (leb (o + 1) (length xs))
      count ← get_elem? xs o
      (hops, o') ← read_hops count xs (o + 1)
      some (some hops, o'))
    else some (none, o)

-- The first format that can be read.
unfoldable pub try_decompress : Zlib → Bytes → Option Bytes
try_decompress z xs = elim (z.decompress zlib_format xs) [
  | some ys ↦ some ys
  | none ↦ elim (z.decompress raw_deflate xs) [
    | some ys ↦ some ys
    | none ↦ z.decompress any_header xs
  ]
]

-- The original size in the prefix is read and not used. The quotient of the two sizes, a float in
-- the source, is compared exactly.
unfoldable pub expand : Zlib → ℕ → ℕ → Bytes → Option Bytes
unfolding try_decompress
expand z flags version raw =
    let prefix = if leb 2 version then 4 else 2 in
    if has_flag flags is_compressed
    then (do
      _ ← require (leb prefix (length raw))
      payload ← try_decompress z (drop prefix raw)
      _ ← require (
          not (
            ltb 0 (length (drop prefix raw))
            && ltb (max_compression_ratio * length (drop prefix raw)) (length payload)))
      some payload)
    else some raw

-- A signature that the input is too short for is left out, with no error.
unfoldable pub read_signature : ℕ → Bytes → ℕ → Option Bytes
read_signature flags xs o =
    if has_flag flags has_signature && leb (o + 64) (length xs)
    then some (slice xs o (o + 64))
    else none

unfoldable pub read_body : Zlib → Header → Bytes → Option Packet
read_body z h xs = do
  (sender_id, o) ← read_id xs h.offset
  (recipient_id, o) ← read_recipient h.flags xs o
  (route, o) ← read_route h.flags h.version xs o
  _ ← require (leb (o + h.payload_len) (length xs))
  payload ← expand z h.flags h.version (slice xs o (o + h.payload_len))
  some (record {
    type = h.type;
    sender_id = sender_id;
    payload = payload;
    version = h.version;
    ttl = h.ttl;
    timestamp = h.timestamp;
    flags = h.flags;
    recipient_id = recipient_id;
    signature = read_signature h.flags xs (o + h.payload_len);
    route = route;
  })

unfoldable pub decode_raw : Zlib → Bytes → Option Packet
decode_raw z xs = do h ← read_header xs; read_body z h xs

-- The input as it is first, and with its padding off if that fails.
unfoldable pub decode : Zlib → Bytes → Option Packet
decode z xs = elim (decode_raw z xs) [ some p ↦ some p | none ↦ decode_raw z (unpad xs) ]
