-- ===== src/Mesh/Fragments/Payload.antt =====
-- The payload of a fragment: `_encode_fragment_payload` and `_decode_fragment_payload`.
use bit_chat_pi.Prelude.{
  Option, arith, drop, false, if◌then◌else◌, length, ltb, none, refl, replicate, some, take,
  take-append, ℕ, ◌++◌, ◌<◌, ◌>>=◌, ◌≡◌,
}
use bit_chat_pi.Bytes.{Bytes, from_be, from_be-to_be, length-to_be, pack, pack_fits, slice, to_be}
use bit_chat_pi.Protocol.Constants.{fragment_header_size, fragment_id_size}
use bit_chat_pi.Bytes.Cursor.{At-next, At-slice, At-start}

pub record FragmentPayload : Type 0 where
  pub frag_id : Bytes
  pub index : ℕ
  pub total : ℕ
  pub original_type : ℕ
  pub chunk : Bytes

-- `struct.pack` cuts the identifier at 8 bytes, or fills it up with zeros.
unfoldable pub encode_fragment_payload : FragmentPayload → Option Bytes
encode_fragment_payload f = do
  index ← pack 2 f.index
  total ← pack 2 f.total
  type ← pack 1 f.original_type
  some (take 8 (f.frag_id ++ replicate 8 0) ++ (index ++ (total ++ (type ++ f.chunk))))

unfoldable pub decode_fragment_payload : Bytes → Option FragmentPayload
decode_fragment_payload xs =
    if ltb (length xs) fragment_header_size
    then none
    else some (record {
      frag_id = take fragment_id_size xs;
      index = from_be (slice xs 8 10);
      total = from_be (slice xs 10 12);
      original_type = from_be (slice xs 12 13);
      chunk = drop fragment_header_size xs;
    })

-- What `struct.pack` accepts, with an identifier of its full length.
pub record PayloadFits (f : FragmentPayload) : Type 0 where
  pub frag_id : length f.frag_id ≡ 8
  pub index : f.index < 65536
  pub total : f.total < 65536
  pub original_type : f.original_type < 256

-- The fields of a payload of which each part has its size.
decode_parts :
    (i j k l chunk : Bytes)
    → length i ≡ 8
    → length j ≡ 2
    → length k ≡ 2
    → length l ≡ 1
    → decode_fragment_payload (i ++ (j ++ (k ++ (l ++ chunk))))
      ≡ some (record {
        frag_id = i;
        index = from_be j;
        total = from_be k;
        original_type = from_be l;
        chunk = chunk;
      })
unfolding decode_fragment_payload
decode_parts i j k l chunk hi hj hk hl =
    let xs = i ++ (j ++ (k ++ (l ++ chunk))) in
    let at0 = At-start xs in
    let at8 = At-next i (j ++ (k ++ (l ++ chunk))) at0 8 (omega (arith, hi)) in
    let at10 = At-next j (k ++ (l ++ chunk)) at8 10 (omega (arith, hj)) in
    let at12 = At-next k (l ++ chunk) at10 12 (omega (arith, hk)) in
    let at13 = At-next l chunk at12 13 (omega (arith, hl)) in
    let long : ltb (length xs) fragment_header_size ≡ false = ground (arith, at13.inside) in
    rw
      (
        long,
        take-append 8 i (j ++ (k ++ (l ++ chunk))) hi,
        At-slice j (k ++ (l ++ chunk)) at8 10 (omega (arith, hj)),
        At-slice k (l ++ chunk) at10 12 (omega (arith, hk)),
        At-slice l chunk at12 13 (omega (arith, hl)),
        at13.seen,
      )
      refl

abbrev payload_bytes : FragmentPayload → Bytes
payload_bytes f =
    f.frag_id ++ (to_be 2 f.index ++ (to_be 2 f.total ++ (to_be 1 f.original_type ++ f.chunk)))

pub encode_fragment_payload_fits :
    (f : FragmentPayload) → PayloadFits f → encode_fragment_payload f ≡ some (payload_bytes f)
unfolding encode_fragment_payload
encode_fragment_payload_fits f fits =
    rw
      (
        take-append 8 f.frag_id (replicate 8 0) fits.frag_id,
        pack_fits 2 f.index fits.index,
        pack_fits 2 f.total fits.total,
        pack_fits 1 f.original_type fits.original_type,
      )
      refl

-- A fragment's payload is read back as it was written.
pub decode-encode_fragment_payload :
    (f : FragmentPayload)
    → PayloadFits f
    → (xs : Bytes) × (encode_fragment_payload f ≡ some xs) × (decode_fragment_payload xs ≡ some f)
decode-encode_fragment_payload f fits = (
  payload_bytes f,
  encode_fragment_payload_fits f fits,
  rw
      (
        decode_parts f.frag_id (to_be 2 f.index) (to_be 2 f.total) (to_be 1 f.original_type) f.chunk
            fits.frag_id (length-to_be 2 f.index) (length-to_be 2 f.total)
            (length-to_be 1 f.original_type),
        from_be-to_be 2 f.index fits.index,
        from_be-to_be 2 f.total fits.total,
        from_be-to_be 1 f.original_type fits.original_type,
      )
      refl,
)
