-- ===== src/Protocol/Codec/Encode.antt =====
-- `encode` of server/bitchatd/protocol/codec.py.
use bit_chat_pi.Prelude.{
  Bool, List, Option, [], bit_or, if◌then◌else◌, is_some, leb, length, ltb, none, replicate,
  require, some, take, ℕ, ◌&&◌, ◌++◌, ◌-◌, ◌==◌, ◌>>=◌, ◌||◌, ◌∷◌,
}
use bit_chat_pi.Bytes.{Bytes, pack}
use bit_chat_pi.Zlib.{Zlib}
use bit_chat_pi.Protocol.Constants.{
  compression_threshold_bytes, has_recipient, has_route, has_signature, is_compressed, peer_id_size,
}
use bit_chat_pi.Protocol.Packet.{Packet, has_hops}
use bit_chat_pi.Protocol.Padding.{pad}

-- `_pad_peer_id`
unfoldable pub pad_peer_id : Bytes → Bytes
pad_peer_id id =
    if leb peer_id_size (length id)
    then take peer_id_size id
    else id ++ replicate (peer_id_size - length id) 0

-- The size of the prefix that keeps the original length: uint16 in version 1, uint32 in version 2.
abbrev pub prefix_size : ℕ → ℕ
prefix_size version = if ltb version 2 then 2 else 4

-- Whether a payload is sent compressed.
unfoldable pub compresses : Zlib → Bytes → Bool
compresses z payload =
    ltb compression_threshold_bytes (length payload)
    && ltb (length (z.compress payload)) (length payload)

unfoldable pub encode_payload : Zlib → ℕ → Bytes → Option Bytes
encode_payload z version payload =
    if compresses z payload
    then (do
      prefix ← pack (prefix_size version) (length payload)
      some (prefix ++ z.compress payload))
    else some payload

abbrev flag_if : Bool → ℕ → ℕ → ℕ
flag_if test flag flags = if test then bit_or flags flag else flags

unfoldable pub encode_flags : Bool → Bool → Bool → Bool → ℕ
encode_flags recipient signature compressed route = flag_if route has_route (
    flag_if compressed is_compressed
      (flag_if signature has_signature (flag_if recipient has_recipient 0)))

-- The two `struct.pack` calls: the length field has 4 bytes from version 2 on. In version 1 a length
-- above 0xFFFF is refused before the call, which would raise for it as well.
unfoldable pub encode_header : ℕ → ℕ → ℕ → ℕ → ℕ → ℕ → Option Bytes
encode_header version type ttl timestamp flags payload_len = do
  _ ← require (leb 2 version || leb payload_len 0xffff)
  version_byte ← pack 1 version
  type_byte ← pack 1 type
  ttl_byte ← pack 1 ttl
  timestamp_bytes ← pack 8 timestamp
  flags_byte ← pack 1 flags
  length_bytes ← pack (prefix_size version) payload_len
  some (
      version_byte
      ++ (type_byte ++ (ttl_byte ++ (timestamp_bytes ++ (flags_byte ++ length_bytes)))))

abbrev pub encode_hops : List Bytes → Bytes
encode_hops [] = []
encode_hops (hop ∷ hops) = pad_peer_id hop ++ encode_hops hops

unfoldable pub encode_route : Option (List Bytes) → Bytes
encode_route none = []
encode_route (some []) = []
encode_route (some (hop ∷ hops)) =
    let route = take 255 (hop ∷ hops) in length route ∷ encode_hops route

abbrev pub encode_recipient : Option Bytes → Bytes
encode_recipient none = []
encode_recipient (some id) = pad_peer_id id

abbrev pub encode_signature : Option Bytes → Bytes
encode_signature none = []
encode_signature (some signature) = take 64 signature

abbrev pub encode_version : Packet → ℕ
encode_version p = if has_hops p.route then 2 else p.version

-- `now` is `int(time.time() * 1000)`, read where the packet has no stamp.
abbrev pub encode_timestamp : ℕ → Packet → ℕ
encode_timestamp now p = if p.timestamp == 0 then now else p.timestamp

abbrev pub packet_flags : Zlib → Packet → ℕ
packet_flags z p =
    encode_flags (is_some p.recipient_id) (is_some p.signature) (compresses z p.payload)
      (has_hops p.route)

unfoldable pub encode_raw : Zlib → ℕ → Packet → Option Bytes
encode_raw z now p = do
  payload ← encode_payload z (encode_version p) p.payload
  header ←
      encode_header (encode_version p) p.type p.ttl (encode_timestamp now p) (packet_flags z p)
        (length payload)
  some (
      header
      ++ (pad_peer_id p.sender_id
          ++ (encode_recipient p.recipient_id
              ++ (encode_route p.route ++ (payload ++ encode_signature p.signature)))))

unfoldable pub encode : Zlib → ℕ → Packet → Bool → Option Bytes
unfolding encode_raw
encode z now p padded = do raw ← encode_raw z now p; some (if padded then pad raw else raw)
