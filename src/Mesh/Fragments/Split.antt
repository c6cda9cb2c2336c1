-- ===== src/Mesh/Fragments/Split.antt =====
-- `FragmentManager.create_fragments`.
pub mod Chunks
use bit_chat_pi.Prelude.{
  List, Option, [], drop, if◌then◌else◌, leb, length, min, none, some, suc, take, true, zero, ℕ,
  ◌*◌, ◌+◌, ◌-◌, ◌==◌, ◌>>=◌, ◌∷◌,
}
use bit_chat_pi.Bytes.{Bytes}
use bit_chat_pi.Zlib.{Zlib}
use bit_chat_pi.Protocol.Constants.{
  fragment_header_size, fragment_size_threshold, header_v1_size, header_v2_size, max_fragment_size,
  peer_id_size,
}
use bit_chat_pi.Protocol.MessageType.{fragment}
use bit_chat_pi.Protocol.Packet.{Packet, has_hops}
use bit_chat_pi.Protocol.Padding.{unpad}
use bit_chat_pi.Protocol.Codec.Encode.{encode, encode_version}
use bit_chat_pi.Mesh.Fragments.Payload.{encode_fragment_payload}

abbrev pub recipient_size : Option Bytes → ℕ
recipient_size none = 0
recipient_size (some id) = peer_id_size

abbrev pub route_size : Option (List Bytes) → ℕ
route_size none = 0
route_size (some []) = 0
route_size (some (hop ∷ hops)) = 1 + length (hop ∷ hops) * peer_id_size

-- What a fragment takes beside its data, with 16 bytes to spare.
unfoldable pub overhead : Packet → ℕ
overhead p =
    (if leb 2 (encode_version p) then header_v2_size else header_v1_size)
    + peer_id_size
    + recipient_size p.recipient_id
    + route_size p.route
    + fragment_header_size
    + 16

-- 0 where the source has a negative number, which it treats alike.
unfoldable pub max_data : Packet → ℕ
max_data p = min (512 - overhead p) max_fragment_size

-- The slices `full_data[i:i + size]`: fuel that is the length of the data is enough.
unfoldable pub chunks_from : ℕ → ℕ → Bytes → List Bytes
chunks_from zero size xs = []
chunks_from (suc fuel) size [] = []
chunks_from (suc fuel) size (x ∷ xs) =
    let rest = chunks_from fuel size (drop size (x ∷ xs)) in take size (x ∷ xs) ∷ rest

abbrev pub chunks : ℕ → Bytes → List Bytes
chunks size xs = chunks_from (length xs) size xs

-- The packet around the payload of a fragment.
abbrev pub fragment_packet : Packet → Bytes → Packet
fragment_packet p payload = record {
  type = fragment;
  sender_id = p.sender_id;
  payload = payload;
  version = if has_hops p.route then 2 else 1;
  ttl = p.ttl;
  timestamp = p.timestamp;
  flags = 0;
  recipient_id = p.recipient_id;
  signature = none;
  route = p.route;
}

-- The loop over the chunks, from number `index` on; `none` is `struct.error`.
unfoldable pub fragments_from : Packet → Bytes → ℕ → ℕ → List Bytes → Option (List Packet)
fragments_from p frag_id total index [] = some []
fragments_from p frag_id total index (chunk ∷ rest) = do
  payload ← encode_fragment_payload (record {
    frag_id = frag_id;
    index = index;
    total = total;
    original_type = p.type;
    chunk = chunk;
  })
  packets ← fragments_from p frag_id total (index + 1) rest
  some (fragment_packet p payload ∷ packets)

-- `frag_id` is what `os.urandom` gives, `now` the clock that `encode` reads.
unfoldable pub create_fragments : Zlib → ℕ → Bytes → Packet → Option (List Packet)
unfolding chunks_from fragments_from
create_fragments z now frag_id p = elim (encode z now p true) [
  | none ↦ some []
  | some encoded ↦
      let full_data = unpad encoded in
      if leb (length full_data) fragment_size_threshold
      then some (p ∷ [])
      else if max_data p == 0
      then some []
      else fragments_from p frag_id (length (chunks (max_data p) full_data)) 0
          (chunks (max_data p) full_data)
]
