-- ===== src/Protocol/Codec/RoundTrip.antt =====
-- `decode` reads back what `encode` wrote, with or without padding.
use bit_chat_pi.Prelude.{
  Bool, IsOptional, [], ap, append-nil, append_assoc, arith, false, is_some, length, length-append,
  le→leb, refl, replicate, some, subst, sym, true, ℕ, ◌++◌, ◌+◌, ◌<◌, ◌^◌, ◌≡◌, ◌≤◌,
}
use bit_chat_pi.Bytes.{Bytes}
use bit_chat_pi.Zlib.{Zlib, ZlibLaws}
use bit_chat_pi.Protocol.Packet.{Packet, has_hops}
use bit_chat_pi.Protocol.Codec.Encode.{
  compresses, encode, encode_raw, encode_recipient, encode_route, encode_signature,
  encode_timestamp, encode_version, packet_flags, pad_peer_id, prefix_size,
}
use bit_chat_pi.Protocol.Codec.Decode.{Header, decode, decode_raw, read_body}
use bit_chat_pi.Protocol.Codec.Flags.{
  flags-IsByte, flags-compressed, flags-recipient, flags-route, flags-signature,
}
use bit_chat_pi.Protocol.Codec.Readers.{IsId, pad_peer_id-IsId, read_id-At}
use bit_chat_pi.Protocol.Codec.Headers.{
  FitsHeader, IsVersion, encode_header_fits, header_bytes, header_of, length-header, read_header-At,
}
use bit_chat_pi.Protocol.Codec.Parts.{
  IsRoute, IsSignature, read_optional_signature-At, read_recipient-At, read_route-At, sent_route,
}
use bit_chat_pi.Protocol.Codec.Payload.{
  encode_payload_fits, expand_sent, payload_limit, payload_limit_most, payload_limit_short,
  sent_payload, sent_payload-le,
}
use bit_chat_pi.Bytes.Cursor.{At, At-fits, At-next, At-slice, At-start}
use bit_chat_pi.Protocol.Padding.{pad}
use bit_chat_pi.Protocol.Padding.Laws.{pad-padding, padding}

-- What a packet has to satisfy for its fields to fit the format.
pub record IsSendable (now : ℕ) (p : Packet) : Type 0 where
  pub version : IsVersion (encode_version p)
  pub type_byte : p.type < 256
  pub ttl_byte : p.ttl < 256
  pub stamp : encode_timestamp now p < 2 ^ 64
  pub sender : IsId p.sender_id
  pub recipient : IsOptional IsId p.recipient_id
  pub route : IsOptional IsRoute p.route
  pub signature : IsOptional IsSignature p.signature
  pub size :
      length p.payload + prefix_size (encode_version p) ≤ payload_limit (encode_version p) + 1

-- The packet as the receiver has it: the version, the stamp and the flags that were written.
abbrev pub received : Zlib → ℕ → Packet → Packet
received z now p = record p {
  version = encode_version p;
  timestamp = encode_timestamp now p;
  flags = packet_flags z p;
  route = sent_route p.route;
}

module _ (z : Zlib) (now : ℕ) (p : Packet) where
  abbrev version : ℕ
  version = encode_version p

  abbrev blob : Bytes
  blob = sent_payload z version p.payload

  abbrev flags : ℕ
  flags = packet_flags z p

  abbrev sent_header : Bytes
  sent_header = header_bytes version p.type p.ttl (encode_timestamp now p) flags (length blob)

  -- The variable part, with what follows it.
  abbrev sent_body : Bytes → Bytes
  sent_body more =
      pad_peer_id p.sender_id
      ++ (encode_recipient p.recipient_id
          ++ (encode_route p.route ++ (blob ++ (encode_signature p.signature ++ more))))

  abbrev pub sent_bytes : Bytes
  sent_bytes =
      sent_header
      ++ (pad_peer_id p.sender_id
          ++ (encode_recipient p.recipient_id
              ++ (encode_route p.route ++ (blob ++ encode_signature p.signature))))

  sent_bytes-append : (more : Bytes) → sent_bytes ++ more ≡ sent_header ++ sent_body more
  sent_bytes-append more = simp append_assoc

  module _ (ok : IsSendable now p) where
    blob-le : length blob ≤ payload_limit version
    blob-le = sent_payload-le z version p.payload ok.version ok.size

    sent_fits : FitsHeader version p.type p.ttl (encode_timestamp now p) flags (length blob)
    sent_fits = record {
      version = ok.version;
      type_byte = ok.type_byte;
      ttl_byte = ok.ttl_byte;
      stamp = ok.stamp;
      flags_byte =
          flags-IsByte (is_some p.recipient_id) (is_some p.signature) (compresses z p.payload)
            (has_hops p.route);
      size = payload_limit_most version (length blob) blob-le;
      short = payload_limit_short version (length blob) blob-le;
    }

    pub encode_raw_sent : encode_raw z now p ≡ some sent_bytes
    unfolding encode_raw
    encode_raw_sent =
        rw
          (encode_payload_fits z version p.payload ok.version ok.size, encode_header_fits sent_fits)
          refl

    routed_version : has_hops p.route ≡ true → version ≡ 2
    routed_version e = rw e

    module _ (laws : ZlibLaws z) (more : Bytes) where
      abbrev header : Header
      header = header_of version p.type p.ttl (encode_timestamp now p) flags (length blob)

      read_body_sent :
          (xs : Bytes)
          → At xs header.offset (sent_body more)
          → read_body z header xs ≡ some (received z now p)
      unfolding read_body
      read_body_sent xs at =
          let r = is_some p.recipient_id in
          let s = is_some p.signature in
          let c = compresses z p.payload in
          let h = has_hops p.route in
          let rest3 : Bytes = encode_signature p.signature ++ more in
          let rest2 : Bytes = encode_route p.route ++ (blob ++ rest3) in
          let rest1 : Bytes = encode_recipient p.recipient_id ++ rest2 in
          let at0 : At xs header.offset (p.sender_id ++ rest1) =
            rw (pad_peer_id-IsId p.sender_id ok.sender) at at in
          let at1 = At-next p.sender_id rest1 at0 (header.offset + 8) (omega (arith, ok.sender)) in
          let recipient =
            read_recipient-At rest2 flags p.recipient_id ok.recipient (flags-recipient r s c h)
              at1 in
          let route =
            read_route-At (blob ++ rest3) flags version p.route ok.route routed_version
              (flags-route r s c h) recipient.1 in
          let at3 = At-next blob rest3 route.1 _ refl in
          rw
            (
              read_id-At rest1 p.sender_id ok.sender at0,
              recipient.0,
              route.0,
              le→leb _ _ (At-fits blob rest3 route.1),
              At-slice blob rest3 route.1 _ refl,
              expand_sent z version p.payload laws ok.version flags (flags-compressed r s c h),
              read_optional_signature-At more flags p.signature ok.signature
                  (flags-signature r s c h) at3,
            )
            refl

      body_room : 8 ≤ length (sent_body more)
      body_room = omega (
        arith,
        length-append (pad_peer_id p.sender_id) (
            encode_recipient p.recipient_id
            ++ (encode_route p.route ++ (blob ++ (encode_signature p.signature ++ more)))),
        ap length (pad_peer_id-IsId p.sender_id ok.sender),
        ok.sender,
      )

      body_At : At (sent_header ++ sent_body more) header.offset (sent_body more)
      body_At =
          At-next sent_header (sent_body more) (At-start (sent_header ++ sent_body more))
            header.offset (omega (arith, length-header sent_fits))

      -- Whatever follows the bytes of a packet, they decode to it.
      pub decode_raw-sent : decode_raw z (sent_bytes ++ more) ≡ some (received z now p)
      unfolding decode_raw
      decode_raw-sent =
          subst (λ xs. decode_raw z xs ≡ some (received z now p)) (sym (sent_bytes-append more))
            (rw (read_header-At sent_fits (sent_body more) body_room) (read_body_sent _ body_At))

decode_of_raw :
    (z : Zlib) (xs : Bytes) {p : Packet} → decode_raw z xs ≡ some p → decode z xs ≡ some p
unfolding decode
decode_of_raw z xs e = rw (e, decode)

pub encode_sent :
    (z : Zlib) (now : ℕ) (p : Packet)
    → IsSendable now p
    → encode z now p true ≡ some (pad (sent_bytes z now p))
unfolding encode
encode_sent z now p ok = rw (encode_raw_sent z now p ok) refl

pub decode-sent :
    (z : Zlib) (now : ℕ) (p : Packet)
    → ZlibLaws z
    → IsSendable now p
    → decode z (sent_bytes z now p) ≡ some (received z now p)
decode-sent z now p laws ok =
    decode_of_raw z (sent_bytes z now p) (rw append-nil at (decode_raw-sent z now p ok laws []))

-- A packet whose fields fit the format is encoded, padded or not, and decoding gives it back with
-- the version, stamp and flags that were written, where zlib reads back its own output and
-- compresses at most 1032 to 1.
pub decode-encode :
    (z : Zlib) (now : ℕ) (p : Packet) (padded : Bool)
    → ZlibLaws z
    → IsSendable now p
    → (xs : Bytes) × (encode z now p padded ≡ some xs) × (decode z xs ≡ some (received z now p))
unfolding encode
decode-encode z now p true laws ok =
    let xs = sent_bytes z now p in
    (
      pad xs,
      rw (encode_raw_sent z now p ok),
      rw (pad-padding xs) (
          decode_of_raw z _
            (decode_raw-sent z now p ok laws (replicate (padding xs) (padding xs)))),
    )
decode-encode z now p false laws ok =
    let xs = sent_bytes z now p in
    (
      xs,
      rw (encode_raw_sent z now p ok),
      decode_of_raw z xs (rw append-nil at (decode_raw-sent z now p ok laws [])),
    )
