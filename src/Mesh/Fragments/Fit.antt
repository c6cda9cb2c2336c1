-- ===== src/Mesh/Fragments/Fit.antt =====
-- The fragments fit in one message of 512 bytes.
use bit_chat_pi.Prelude.{
  Bool-cases, IsOptional, List, Option, [], ap, arith, drop, get_elem?, get_elem?_below, inl, inr,
  length, length-append, length-drop, length-replicate, ltb, none, refl, replicate, some, true, ℕ,
  ◌++◌, ◌+◌, ◌<◌, ◌∙◌, ◌∷◌, ◌≡◌, ◌≤◌,
}
use bit_chat_pi.Bytes.{Bytes, length-to_be, to_be}
use bit_chat_pi.Zlib.{Zlib}
use bit_chat_pi.Protocol.Packet.{Packet, has_hops}
use bit_chat_pi.Protocol.Padding.{pad}
use bit_chat_pi.Protocol.Padding.Laws.{pad-padding, pad_count, padding}
use bit_chat_pi.Protocol.Codec.Encode.{
  compresses, encode, encode_recipient, encode_route, encode_signature, encode_timestamp,
  encode_version, packet_flags, pad_peer_id, prefix_size,
}
use bit_chat_pi.Protocol.Codec.Readers.{IsId, length-hops, pad_peer_id-IsId}
use bit_chat_pi.Protocol.Codec.Headers.{header_bytes}
use bit_chat_pi.Protocol.Codec.Parts.{IsRoute, encode_route_hops}
use bit_chat_pi.Protocol.Codec.Payload.{sent_payload}
use bit_chat_pi.Protocol.Codec.RoundTrip.{IsSendable, encode_sent, sent_bytes}
use bit_chat_pi.Mesh.Fragments.Split.{
  create_fragments, fragment_packet, max_data, overhead, recipient_size, route_size,
}
use bit_chat_pi.Mesh.Fragments.Payload.{FragmentPayload, decode_fragment_payload}
use bit_chat_pi.Mesh.Fragments.Gather.{nth_payload}
use bit_chat_pi.Mesh.Fragments.Cut.{
  IsSplit, created, max_data-le, nth, nth-IsChunk, pieces, pieces-IsChunk,
}

length-pad-le : (xs : Bytes) → length xs ≤ 512 → length (pad xs) ≤ 512
unfolding pad_count
length-pad-le xs h =
    let k = padding xs in
    let total : length xs + padding xs ≤ 512 = ground arith in
    rw pad-padding (omega (arith, total, length-append xs (replicate k k), length-replicate k k))

length-sent_payload-le :
    (z : Zlib) (v : ℕ) (payload : Bytes) → length (sent_payload z v payload) ≤ length payload + 3
unfolding compresses
length-sent_payload-le z v payload = ground (
  arith,
  length-append (to_be (prefix_size v) (length payload)) (z.compress payload),
  length-to_be (prefix_size v) (length payload),
)

length-encode_recipient :
    (r : Option Bytes) → IsOptional IsId r → length (encode_recipient r) ≡ recipient_size r
length-encode_recipient none h = refl
length-encode_recipient (some id) h = ap length (pad_peer_id-IsId id h) ∙ h

length-encode_route :
    (r : Option (List Bytes)) → IsOptional IsRoute r → length (encode_route r) ≡ route_size r
unfolding encode_route
length-encode_route none h = refl
length-encode_route (some []) h = refl
length-encode_route (some (hop ∷ hops)) h =
    ap length (encode_route_hops hop hops h) ∙ omega (arith, length-hops (hop ∷ hops) h.0)

length_six :
    (a b c d e f : Bytes)
    → length (a ++ (b ++ (c ++ (d ++ (e ++ f)))))
      ≡ length a + length b + length c + length d + length e + length f
length_six a b c d e f = omega (
  arith,
  length-append a (b ++ (c ++ (d ++ (e ++ f)))),
  length-append b (c ++ (d ++ (e ++ f))),
  length-append c (d ++ (e ++ f)),
  length-append d (e ++ f),
  length-append e f,
)

-- The size of a packet without signature, but for the size of the payload on the wire.
length-sent_bytes-le :
    (z : Zlib) (now : ℕ) (p : Packet)
    → IsSendable now p
    → p.signature ≡ none
    → length (sent_bytes z now p)
      ≤ 12
        + prefix_size (encode_version p)
        + 8
        + recipient_size p.recipient_id
        + route_size p.route
        + length p.payload
        + 3
length-sent_bytes-le z now p ok unsigned =
    let v = encode_version p in
    let payload = sent_payload z v p.payload in
    let header : Bytes =
      header_bytes v p.type p.ttl (encode_timestamp now p) (packet_flags z p) (length payload) in
    omega (
      arith,
      length_six header (pad_peer_id p.sender_id) (encode_recipient p.recipient_id)
          (encode_route p.route) payload (encode_signature p.signature),
      length-append (to_be 8 (encode_timestamp now p))
          (packet_flags z p ∷ to_be (prefix_size v) (length payload)),
      length-to_be 8 (encode_timestamp now p),
      length-to_be (prefix_size v) (length payload),
      ap length (pad_peer_id-IsId p.sender_id ok.sender),
      ok.sender,
      length-encode_recipient p.recipient_id ok.recipient,
      length-encode_route p.route ok.route,
      length-sent_payload-le z v p.payload,
      ap (λ r. length (encode_signature r)) unsigned,
    )

abbrev chunk_length : Option FragmentPayload → ℕ
chunk_length none = 0
chunk_length (some f) = length f.chunk

module _ (z : Zlib) (now : ℕ) (p : Packet) (frag_id : Bytes) (packets : List Packet)
    (split : IsSplit z now p) (id_size : length frag_id ≡ 8)
    (cut : create_fragments z now frag_id p ≡ some packets) where
  decoded-length :
      (xs : Bytes) (f : FragmentPayload)
      → decode_fragment_payload xs ≡ some f
      → length xs ≡ 13 + length f.chunk
  unfolding decode_fragment_payload
  decoded-length xs f e = elim (Bool-cases (ltb (length xs) 13)) [
    | inl short ↦ let e' : ◌≡◌ {A = Option FragmentPayload} none (some f) = rw short at e in cc
    | inr long ↦
        let q : chunk_length (decode_fragment_payload xs) ≡ length f.chunk = ap chunk_length e in
        let q' : length (drop 13 xs) ≡ length f.chunk = rw long at q in
        ground (arith, q', length-drop 13 xs, long)
  ]

  fragment-IsSendable : (xs : Bytes) → length xs ≤ 482 → IsSendable now (fragment_packet p xs)
  fragment-IsSendable xs small = record {
    version = elim (Bool-cases (has_hops p.route)) [
      | inl h ↦ rw h (inr refl)
      | inr h ↦ rw h (inl refl)
    ];
    type_byte = omega arith;
    ttl_byte = split.sendable.ttl_byte;
    stamp = split.sendable.stamp;
    sender = split.sendable.sender;
    recipient = split.sendable.recipient;
    route = split.sendable.route;
    signature = tt;
    size = elim (Bool-cases (has_hops p.route)) [
      | inl h ↦ rw h (omega arith)
      | inr h ↦ rw h (omega arith)
    ];
  }

  fragment_room :
      (xs : Bytes)
      → length xs ≤ 13 + max_data p
      → 12
          + prefix_size (encode_version (fragment_packet p xs))
          + 8
          + recipient_size p.recipient_id
          + route_size p.route
          + length xs
          + 3
        ≤ 512
  unfolding max_data overhead
  fragment_room xs small = ground (arith, small, split.room)

  -- Every fragment of a packet that is cut (`IsSplit`: its fields fit the format, its encoding has more than 512
  -- bytes, stripping padding leaves that whole, and it is cut in at most 256 pieces) is encoded, padding
  -- included, in at most 512 bytes. The identifier of the transfer has eight bytes.
  pub create_fragments_fit :
      (i : ℕ) (q : Packet)
      → get_elem? packets i ≡ some q
      → (xs : Bytes) × (encode z now q true ≡ some xs) × (length xs ≤ 512)
  create_fragments_fit i q at =
      let (packets', e, len, each) = created z now p frag_id split id_size in
      let same : packets' ≡ packets = cc (e, cut) in
      let at' = ap (λ ps. get_elem? ps i) same ∙ at in
      let c = each i q at' in
      let below : i < length (pieces z now p) =
        omega (arith, len, get_elem?_below packets' i q at') in
      let (_, small) =
        nth-IsChunk (max_data p) (pieces z now p) i (pieces-IsChunk z now p frag_id split).1
          below in
      let size : length q.payload ≤ 13 + max_data p = omega (
        arith,
        decoded-length q.payload
            (nth_payload frag_id (length (pieces z now p)) p.type (nth (pieces z now p)) i)
            c.payload,
        small,
      ) in
      let r = fragment_packet p q.payload in
      let ok =
        fragment-IsSendable q.payload (omega (arith, size, max_data-le z now p frag_id split)) in
      let fits : length (pad (sent_bytes z now r)) ≤ 512 =
        length-pad-le (sent_bytes z now r)
          (omega (arith, length-sent_bytes-le z now r ok refl, fragment_room q.payload size)) in
      (
        pad (sent_bytes z now r),
        ap (λ x. encode z now x true) c.shape ∙ encode_sent z now r ok,
        fits,
      )
