-- ===== src/Protocol/Codec/Limits.antt =====
-- Bounds on what the codec writes and reads.
use bit_chat_pi.Prelude.{
  Bool, Ensures, Ensures-bind, Ensures-some, Option-cases, ap, arith, drop, false, inl, inr, leb,
  length, length-append, length-drop, length-take, none, replicate, require, some, ℕ, ◌*◌, ◌+◌, ◌-◌,
  ◌<◌, ◌∙◌, ◌≡◌, ◌≤◌,
}
use bit_chat_pi.Bytes.{Bytes, slice}
use bit_chat_pi.Zlib.{Zlib}
use bit_chat_pi.Protocol.Packet.{Packet}
use bit_chat_pi.Protocol.Padding.{unpad}
use bit_chat_pi.Protocol.Padding.Laws.{unpad_shape}
use bit_chat_pi.Protocol.Codec.Encode.{
  encode, encode_header, encode_timestamp, encode_version, packet_flags,
}
use bit_chat_pi.Protocol.Codec.Decode.{
  Header, decode, decode_raw, expand, read_body, read_id, read_recipient, read_route,
}
use bit_chat_pi.Protocol.Codec.Payload.{NoEmpty, encode_payload_long, length-expand}

encode_header_long :
    (type ttl timestamp flags len : ℕ)
    → 0xffff < len
    → encode_header 1 type ttl timestamp flags len ≡ none
unfolding encode_header
encode_header_long type ttl timestamp flags len h = rw (leb_long h)
  where
    leb_long : 0xffff < len → leb len 0xffff ≡ false
    leb_long k = ground arith

-- A packet of version 1 without a route is never encoded when its payload has more than 65,535
-- bytes, however well that payload compresses.
pub encode_too_long :
    (z : Zlib) (now : ℕ) (p : Packet) (padded : Bool)
    → encode_version p ≡ 1
    → 0xffff < length p.payload
    → encode z now p padded ≡ none
unfolding encode
encode_too_long z now p padded v h = elim (encode_payload_long z p.payload h) [
  | inl e ↦ rw (v, e)
  | inr e ↦
      rw (v, e, encode_header_long p.type p.ttl (encode_timestamp now p) (packet_flags z p) _ h)
]

length-slice-le : (xs : Bytes) (i j : ℕ) → length (slice xs i j) ≤ length xs
length-slice-le xs i j = omega (arith, length-take (j - i) (drop i xs), length-drop i xs)

record IsWithin (n : ℕ) (p : Packet) : Type 0 where
  bound : length p.payload ≤ 50_000 * n

bound_of_slice : (m n len : ℕ) → len ≤ 50_000 * m → m ≤ n → len ≤ 50_000 * n
bound_of_slice m n len h k = omega arith

read_body-IsWithin :
    (z : Zlib) (h : Header) (xs : Bytes)
    → NoEmpty z
    → Ensures (IsWithin (length xs)) (read_body z h xs)
unfolding read_body
read_body-IsWithin z h xs empty = Ensures-bind {m = read_id xs h.offset} λ (sender, o1) _.
    Ensures-bind {m = read_recipient h.flags xs o1} λ (recipient, o2) _.
      Ensures-bind {m = read_route h.flags h.version xs o2} λ (route, o3) _.
        Ensures-bind {m = require (leb (o3 + h.payload_len) (length xs))} λ _ _.
          Ensures-bind {m = expand z h.flags h.version (slice xs o3 (o3 + h.payload_len))}
            λ payload e. Ensures-some (record {
              bound =
                  bound_of_slice _ (length xs) (length payload)
                    (length-expand z h.flags h.version _ payload empty e)
                    (length-slice-le xs o3 (o3 + h.payload_len));
            })

decode_raw-IsWithin :
    (z : Zlib) (xs : Bytes) → NoEmpty z → Ensures (IsWithin (length xs)) (decode_raw z xs)
unfolding decode_raw
decode_raw-IsWithin z xs empty = Ensures-bind λ h _. read_body-IsWithin z h xs empty

length-unpad-le : (xs : Bytes) → length (unpad xs) ≤ length xs
length-unpad-le xs =
    let (k, e) = unpad_shape xs in
    omega (arith, ap length e, length-append (unpad xs) (replicate k k))

-- No input decodes to a payload of more than 50,000 times its own size, where zlib refuses the
-- empty input.
pub decode_no_bomb :
    (z : Zlib) (xs : Bytes) (p : Packet)
    → NoEmpty z
    → decode z xs ≡ some p
    → length p.payload ≤ 50_000 * length xs
unfolding decode
decode_no_bomb z xs p empty e = elim (Option-cases (decode_raw z xs)) [
  | inl failed ↦
      let small =
        ((decode_raw-IsWithin z (unpad xs) empty).at p (rw (failed, decode) at e)).bound in
      omega (arith, small, length-unpad-le xs)
  | inr (q, found) ↦
      ((decode_raw-IsWithin z xs empty).at p (found ∙ (rw (found, decode) at e))).bound
]
