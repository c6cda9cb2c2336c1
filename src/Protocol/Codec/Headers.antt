-- ===== src/Protocol/Codec/Headers.antt =====
-- The fixed part of a packet: what `encode` writes, and that `_decode_raw` reads it back.
use bit_chat_pi.Prelude.{
  [], append_assoc, arith, inl, inr, leb, length, length-append, le→leb, refl, some, true, ℕ, ◌%◌,
  ◌++◌, ◌+◌, ◌<◌, ◌==◌, ◌^◌, ◌||◌, ◌∷◌, ◌≡◌, ◌≤◌, ◌⊎◌,
}
use bit_chat_pi.Bytes.{Bytes, length-to_be, pack_fits, to_be}
use bit_chat_pi.Bytes.Cursor.{At, At-get, At-next, At-step}
use bit_chat_pi.Protocol.Codec.Readers.{unpack-At}
use bit_chat_pi.Protocol.Constants.{max_payload_length}
use bit_chat_pi.Protocol.Codec.Encode.{encode_header, prefix_size}
use bit_chat_pi.Protocol.Codec.Decode.{Header, read_header, read_length}

abbrev pub IsVersion : ℕ → Type 0
IsVersion v = (v ≡ 1) ⊎ (v ≡ 2)

to_be-one : (n : ℕ) → n < 256 → to_be 1 n ≡ n ∷ []
unfolding to_be
to_be-one n h = let e : n % 256 ≡ n = omega arith in rw e

abbrev pub header_size : ℕ → ℕ
header_size v = 12 + prefix_size v

module _ (v type ttl timestamp flags len : ℕ) where
  abbrev pub header_of : Header
  header_of = record {
    version = v;
    type = type;
    ttl = ttl;
    timestamp = timestamp;
    flags = flags;
    payload_len = len;
    offset = header_size v;
  }

  abbrev pub header_bytes : Bytes
  header_bytes = v ∷ type ∷ ttl ∷ (to_be 8 timestamp ++ (flags ∷ to_be (prefix_size v) len))

  pub record FitsHeader : Type 0 where
    pub version : IsVersion v
    pub type_byte : type < 256
    pub ttl_byte : ttl < 256
    pub stamp : timestamp < 2 ^ 64
    pub flags_byte : flags < 256
    pub size : len ≤ max_payload_length
    pub short : v ≡ 1 → len ≤ 0xffff

module _ {v type ttl timestamp flags len : ℕ}
    (fits : FitsHeader v type ttl timestamp flags len) where
  length_fits : len < 256 ^ prefix_size v
  length_fits = elim fits.version [
    | inl e ↦ rw e (omega (arith, fits.short e))
    | inr e ↦ rw e (omega (arith, fits.size))
  ]

  length_allowed : (leb 2 v || leb len 0xffff) ≡ true
  length_allowed = elim fits.version [
    | inl e ↦ rw (e, le→leb len 0xffff (fits.short e))
    | inr e ↦ rw e
  ]

  version_byte : v < 256
  version_byte = elim fits.version [ inl e ↦ omega arith | inr e ↦ omega arith ]

  pub encode_header_fits :
      encode_header v type ttl timestamp flags len
      ≡ some (header_bytes v type ttl timestamp flags len)
  unfolding encode_header
  encode_header_fits =
      rw
        (
          length_allowed,
          pack_fits 1 v version_byte,
          pack_fits 1 type fits.type_byte,
          pack_fits 1 ttl fits.ttl_byte,
          pack_fits 8 timestamp fits.stamp,
          pack_fits 1 flags fits.flags_byte,
          pack_fits (prefix_size v) len length_fits,
          to_be-one v version_byte,
          to_be-one type fits.type_byte,
          to_be-one ttl fits.ttl_byte,
          to_be-one flags fits.flags_byte,
        )
        refl

  pub length-header : length (header_bytes v type ttl timestamp flags len) ≡ header_size v
  length-header = omega (
    arith,
    length-append (to_be 8 timestamp) (flags ∷ to_be (prefix_size v) len),
    length-to_be 8 timestamp,
    length-to_be (prefix_size v) len,
  )

  module _ (rest : Bytes) (more : 8 ≤ length rest) where
    abbrev whole : Bytes
    whole = header_bytes v type ttl timestamp flags len ++ rest

    length-whole : length whole ≡ header_size v + length rest
    length-whole =
        omega
          (arith, length-append (header_bytes v type ttl timestamp flags len) rest, length-header)

    whole_stamp : At whole 3 (to_be 8 timestamp ++ (flags ∷ (to_be (prefix_size v) len ++ rest)))
    whole_stamp = record {
      seen = append_assoc (to_be 8 timestamp) (flags ∷ to_be (prefix_size v) len) rest;
      inside = omega arith;
    }

    whole_flags : At whole 11 (flags ∷ (to_be (prefix_size v) len ++ rest))
    whole_flags =
        At-next (to_be 8 timestamp) (flags ∷ (to_be (prefix_size v) len ++ rest)) whole_stamp 11
          (omega (arith, length-to_be 8 timestamp))

    whole_length : At whole 12 (to_be (prefix_size v) len ++ rest)
    whole_length = At-step (to_be (prefix_size v) len ++ rest) whole_flags

    read_length-At : read_length v whole ≡ some (len, header_size v)
    unfolding read_length
    read_length-At = ground (
      arith,
      fits.version,
      length-whole,
      unpack-At rest (prefix_size v) len length_fits whole_length,
    )

    length_room : leb 22 (length whole) ≡ true
    length_room = le→leb 22 (length whole) (ground (arith, length-whole))

    version_known : (v == 1 || v == 2) ≡ true
    version_known = ground (arith, fits.version)

    pub read_header-At : read_header whole ≡ some (header_of v type ttl timestamp flags len)
    unfolding read_header
    read_header-At =
        rw
          (
            length_room,
            version_known,
            unpack-At (flags ∷ (to_be (prefix_size v) len ++ rest)) 8 timestamp fits.stamp
                whole_stamp,
            At-get (to_be (prefix_size v) len ++ rest) whole_flags,
            read_length-At,
            le→leb len max_payload_length fits.size,
          )
          refl
