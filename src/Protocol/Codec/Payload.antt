-- ===== src/Protocol/Codec/Payload.antt =====
-- The payload on the wire, compressed or not: what `encode` writes, and that `_decode_raw` reads it.
use bit_chat_pi.Prelude.{
  [], arith, drop, drop-append, if◌then◌else◌, inl, inr, length, length-append, length-drop, ltb,
  none, not, some, true, ℕ, ◌&&◌, ◌*◌, ◌++◌, ◌+◌, ◌<◌, ◌∷◌, ◌≡◌, ◌≤◌, ◌⊎◌,
}
use bit_chat_pi.Bytes.{Bytes, length-to_be, pack, pack_fits, to_be}
use bit_chat_pi.Zlib.{WindowBits, Zlib, ZlibLaws, any_header, raw_deflate, zlib_format}
use bit_chat_pi.Protocol.Constants.{is_compressed, max_compression_ratio, max_payload_length}
use bit_chat_pi.Protocol.Codec.Encode.{compresses, encode_payload, prefix_size}
use bit_chat_pi.Protocol.Codec.Decode.{expand, has_flag, try_decompress}
use bit_chat_pi.Protocol.Codec.Headers.{IsVersion}

-- The largest payload field of a version.
abbrev pub payload_limit : ℕ → ℕ
payload_limit v = if ltb v 2 then 0xffff else max_payload_length

module _ (z : Zlib) (v : ℕ) (payload : Bytes) where
  abbrev pub sent_payload : Bytes
  sent_payload =
      if compresses z payload
      then to_be (prefix_size v) (length payload) ++ z.compress payload
      else payload

  module _ (known : IsVersion v) (fits : length payload + prefix_size v ≤ payload_limit v + 1) where
    pub encode_payload_fits : encode_payload z v payload ≡ some sent_payload
    unfolding encode_payload
    encode_payload_fits = elim known [
      | inl e ↦ ground (arith, pack_fits (prefix_size v) (length payload))
      | inr e ↦ ground (arith, pack_fits (prefix_size v) (length payload))
    ]

    pub sent_payload-le : length sent_payload ≤ payload_limit v
    unfolding compresses
    sent_payload-le = ground (
      arith,
      known,
      length-append (to_be (prefix_size v) (length payload)) (z.compress payload),
      length-to_be (prefix_size v) (length payload),
    )

  pub try_decompress-compress : ZlibLaws z → try_decompress z (z.compress payload) ≡ some payload
  unfolding try_decompress
  try_decompress-compress laws = rw (laws.decompress-compress payload, try_decompress)

  pub expand_sent :
      ZlibLaws z
      → IsVersion v
      → (flags : ℕ) → has_flag flags is_compressed ≡ compresses z payload
      → expand z flags v sent_payload ≡ some payload
  unfolding expand
  expand_sent laws known flags f = ground (
    arith,
    known,
    laws.ratio payload,
    try_decompress-compress laws,
    length-append (to_be (prefix_size v) (length payload)) (z.compress payload),
    length-to_be (prefix_size v) (length payload),
    drop-append (prefix_size v) (to_be (prefix_size v) (length payload)) (z.compress payload),
  )

pub payload_limit_most : (v n : ℕ) → n ≤ payload_limit v → n ≤ max_payload_length
payload_limit_most v n h = ground arith

pub payload_limit_short : (v n : ℕ) → n ≤ payload_limit v → v ≡ 1 → n ≤ 0xffff
payload_limit_short v n h e = ground arith

-- What zlib's documentation says of an empty input: it is an error, in every format.
abbrev pub NoEmpty : Zlib → Type 0
NoEmpty z = (w : WindowBits) → z.decompress w [] ≡ none

try_decompress-nil : (z : Zlib) → NoEmpty z → try_decompress z [] ≡ none
unfolding try_decompress
try_decompress-nil z h = ground (arith, h zlib_format, h raw_deflate, h any_header)

-- The last two steps of `expand`.
bomb_checked :
    (z : Zlib) (ys payload : Bytes)
    → NoEmpty z
    → try_decompress z ys ≡ some payload
    → not (ltb 0 (length ys) && ltb (max_compression_ratio * length ys) (length payload)) ≡ true
    → length payload ≤ 50_000 * length ys
bomb_checked z [] payload empty e h = cc (try_decompress-nil z empty)
bomb_checked z (y ∷ ys) payload empty e h = ground arith

-- A decoded payload is at most 50,000 times what it was read from.
pub length-expand :
    (z : Zlib) (flags v : ℕ) (raw payload : Bytes)
    → NoEmpty z
    → expand z flags v raw ≡ some payload
    → length payload ≤ 50_000 * length raw
unfolding expand
length-expand z flags v raw payload empty e = ground (
  arith,
  bomb_checked z (drop 2 raw) payload empty,
  bomb_checked z (drop 4 raw) payload empty,
  length-drop 2 raw,
  length-drop 4 raw,
)

-- In version 1 a payload above 65,535 bytes is never encoded, however well it compresses.
pub encode_payload_long :
    (z : Zlib) (payload : Bytes)
    → 0xffff < length payload
    → (encode_payload z 1 payload ≡ none) ⊎ (encode_payload z 1 payload ≡ some payload)
unfolding encode_payload pack
encode_payload_long z payload h = ground arith
