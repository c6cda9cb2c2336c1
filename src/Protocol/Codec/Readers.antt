-- ===== src/Protocol/Codec/Readers.antt =====
-- Each reader of `_decode_raw` at an input that holds what `encode` writes for its field.
use bit_chat_pi.Prelude.{
  All, List, [], ap, append_assoc, arith, length, length-append, le→leb, some, take_whole, true, ℕ,
  ◌*◌, ◌++◌, ◌+◌, ◌<◌, ◌^◌, ◌∷◌, ◌≡◌,
}
use bit_chat_pi.Bytes.{Bytes, from_be-to_be, length-to_be, to_be}
use bit_chat_pi.Bytes.Cursor.{At, At-fits, At-next, At-slice}
use bit_chat_pi.Protocol.Constants.{has_signature}
use bit_chat_pi.Protocol.Codec.Encode.{encode_hops, pad_peer_id}
use bit_chat_pi.Protocol.Codec.Decode.{has_flag, read_hops, read_id, read_signature, unpack}

module _ {xs : Bytes} {o : ℕ} (rest : Bytes) where
  pub unpack-At : (w n : ℕ) → n < 256 ^ w → At xs o (to_be w n ++ rest) → unpack w xs o ≡ some n
  unfolding unpack
  unpack-At w n h at =
      let bytes : Bytes = to_be w n in
      rw
        (
          le→leb (o + w) (length xs) (omega (arith, At-fits bytes rest at, length-to_be w n)),
          At-slice bytes rest at (o + w) (omega (arith, length-to_be w n)),
        )
        (ap some (from_be-to_be w n h))

  pub read_id-At :
      (id : Bytes) → length id ≡ 8 → At xs o (id ++ rest) → read_id xs o ≡ some (id, o + 8)
  unfolding read_id
  read_id-At id n at = rw (
    le→leb (o + 8) (length xs) (omega (arith, At-fits id rest at)),
    At-slice id rest at (o + 8) (omega arith),
  )

  pub read_signature-At :
      (flags : ℕ) (id : Bytes)
      → has_flag flags has_signature ≡ true
      → length id ≡ 64
      → At xs o (id ++ rest)
      → read_signature flags xs o ≡ some id
  unfolding read_signature
  read_signature-At flags id f n at =
      ground (arith, At-fits id rest at, At-slice id rest at (o + 64))

abbrev pub IsId : Bytes → Type 0
IsId id = length id ≡ 8

pub pad_peer_id-IsId : (id : Bytes) → IsId id → pad_peer_id id ≡ id
unfolding pad_peer_id
pad_peer_id-IsId id h = ground (arith, take_whole 8 id)

pub length-hops : (hops : List Bytes) → All IsId hops → length (encode_hops hops) ≡ 8 * length hops
length-hops [] h = omega arith
length-hops (hop ∷ hops) h = omega (
  arith,
  length-append (pad_peer_id hop) (encode_hops hops),
  ap length (pad_peer_id-IsId hop h.0),
  length-hops hops h.1,
)

pub read_hops-At :
    {xs : Bytes} (rest : Bytes) (hops : List Bytes) (o p : ℕ)
    → All IsId hops
    → o + 8 * length hops ≡ p
    → At xs o (encode_hops hops ++ rest)
    → (read_hops (length hops) xs o ≡ some (hops, p)) × At xs p rest
unfolding read_hops
read_hops-At rest [] o p h e at = let e' : o ≡ p = omega arith in (rw e', rw e' at at)
read_hops-At {xs} rest (hop ∷ hops) o p h e at =
    let at' : At xs o (hop ++ (encode_hops hops ++ rest)) =
      rw (pad_peer_id-IsId hop h.0, append_assoc hop (encode_hops hops) rest) at at in
    let more =
      read_hops-At rest hops (o + 8) p h.1 (omega arith)
        (At-next hop (encode_hops hops ++ rest) at' (o + 8) (omega arith)) in
    (rw (read_id-At (encode_hops hops ++ rest) hop h.0 at', more.0), more.1)
