-- ===== src/Mesh/Fragments/RoundTrip.antt =====
-- What `create_fragments` makes is put together again by `handle_fragment`.
use bit_chat_pi.Prelude.{
  All, List, [], ap, arith, false, get_elem?, get_elem?_below, length, refl, some, subst, sym, true,
  ℕ, ◌<◌, ◌∙◌, ◌∷◌, ◌≡◌,
}
use bit_chat_pi.Bytes.{Bytes}
use bit_chat_pi.Protocol.Packet.{Packet, with_ttl}
use bit_chat_pi.Mesh.Fragments.Split.{create_fragments, max_data}
use bit_chat_pi.Mesh.Fragments.Gather.{among}
use bit_chat_pi.Zlib.{Zlib, ZlibLaws}
use bit_chat_pi.Protocol.Codec.Decode.{decode}
use bit_chat_pi.Protocol.Codec.RoundTrip.{decode-sent, received, sent_bytes}
use bit_chat_pi.Mesh.Fragments.Deliver.{
  Delivery, HasRoom, IsFragment, answers, deliver, deliver-joined, indices,
}
use bit_chat_pi.Mesh.Fragments.Manager.{Manager}
use bit_chat_pi.Mesh.Fragments.Receive.{decoded, handle_fragment, nothing, reassembled}
use bit_chat_pi.Mesh.Fragments.Cut.{
  IsSplit, created, joined-nth, max_data-le, nth, nth-IsChunk, pieces, pieces-IsChunk,
}

decoded-some :
    (z : Zlib) (xs : Bytes) (q : Packet)
    → decode z xs ≡ some q
    → decoded z xs ≡ reassembled (with_ttl q 0)
unfolding decoded
decoded-some z xs q e = rw (e, decoded) refl

-- The delivery of one of the packets, with its number.
pub record IsDelivered (z : Zlib) (packets : List Packet) (d : Delivery) : Type 0 where
  pub zlib : d.outside.zlib ≡ z
  pub packet : get_elem? packets d.index ≡ some d.packet

module _ (z : Zlib) (now : ℕ) (p : Packet) (frag_id : Bytes) (packets : List Packet)
    (split : IsSplit z now p) (id_size : length frag_id ≡ 8)
    (cut : create_fragments z now frag_id p ≡ some packets) where
  IsDelivered-IsFragment :
      (length packets ≡ length (pieces z now p))
      × ((d : Delivery)
          → IsDelivered z packets d
          → IsFragment z frag_id p.sender_id
              (length (pieces z now p))
              p.type
              (nth (pieces z now p))
              d)
  IsDelivered-IsFragment =
      let (packets', e, len, each) = created z now p frag_id split id_size in
      let same : packets' ≡ packets = cc (e, cut) in
      let len' : length packets ≡ length (pieces z now p) = ap length (sym same) ∙ len in
      (
        len',
        λ d h.
            let at = ap (λ ps. get_elem? ps d.index) same ∙ h.packet in
            let c = each d.index d.packet at in
            record {
              zlib = h.zlib;
              sender = c.sender;
              payload = c.payload;
              in_range = omega (arith, len', get_elem?_below packets d.index d.packet h.packet);
            },
      )

  All-IsFragment :
      (ds : List Delivery)
      → All (IsDelivered z packets) ds
      → All
          (IsFragment z frag_id p.sender_id (length (pieces z now p)) p.type (nth (pieces z now p)))
          ds
  All-IsFragment [] h = tt
  All-IsFragment (d ∷ ds) h = (IsDelivered-IsFragment.1 d h.0, All-IsFragment ds h.1)

  -- The fragments of a packet that is cut (`IsSplit`: its fields fit the format, its encoding has more than 512
  -- bytes, stripping padding leaves that whole, and it is cut in at most 256 pieces) come in any order, some of
  -- them perhaps more than once,
  -- to a manager that has room for them: they are gathered without an answer until the last missing
  -- one comes, and that one is answered by the packet as `decode` gives it, with no hop left.
  pub handle_fragment-create_fragments :
      (m : Manager) (ds : List Delivery) (last : Delivery)
      → ZlibLaws z
      → HasRoom frag_id p.sender_id (length packets) p.type m
      → All (IsDelivered z packets) (last ∷ ds)
      → among last.index (indices ds) ≡ false
      → ((j : ℕ) → j < length packets → among j (last.index ∷ indices ds) ≡ true)
      → All (λ a. a ≡ nothing) (answers m ds)
        × ((handle_fragment last.outside last.packet (deliver m ds)).answer
            ≡ reassembled (with_ttl (received z now p) 0))
  handle_fragment-create_fragments m ds last laws h (d, all) new full =
      let cs = pieces z now p in
      let (len, each) = IsDelivered-IsFragment in
      let (whole, sizes) = pieces-IsChunk z now p frag_id split in
      let (quiet, done) =
        deliver-joined z frag_id p.sender_id (length cs) p.type (nth cs) (omega (arith, split.few))
          (λ i below.
            let (some_byte, small) = nth-IsChunk (max_data p) cs i sizes below in
            (some_byte, omega (arith, small, max_data-le z now p frag_id split)))
          ds last m (All-IsFragment ds all) (each last d)
          (subst (λ k. HasRoom frag_id p.sender_id k p.type m) len h) new
          (λ j below. full j (omega (arith, len, below))) in
      let decoded_whole =
        decoded-some z (sent_bytes z now p) (received z now p)
          (decode-sent z now p laws split.sendable) in
      (quiet, done ∙ ap (decoded z) (joined-nth cs ∙ whole) ∙ decoded_whole)
