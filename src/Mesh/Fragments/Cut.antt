-- ===== src/Mesh/Fragments/Cut.antt =====
-- What `create_fragments` makes of a packet that is too long for one message.
use bit_chat_pi.Prelude.{
  All, List, [], ap, arith, false, get_elem?, leb, length, refl, some, subst, suc, true, zero, ℕ,
  ◌+◌, ◌<◌, ◌==◌, ◌∙◌, ◌∷◌, ◌≡◌, ◌≤◌,
}
use bit_chat_pi.Bytes.{Bytes}
use bit_chat_pi.Protocol.Packet.{Packet}
use bit_chat_pi.Mesh.Fragments.Payload.{
  FragmentPayload, decode-encode_fragment_payload, decode_fragment_payload,
}
use bit_chat_pi.Mesh.Fragments.Split.{
  chunks, create_fragments, fragment_packet, fragments_from, max_data,
}
use bit_chat_pi.Mesh.Fragments.Split.Chunks.{IsChunk, concat, concat-chunks}
use bit_chat_pi.Mesh.Fragments.Gather.{joined, nth_payload}
use bit_chat_pi.Zlib.{Zlib}
use bit_chat_pi.Protocol.Padding.{pad, unpad}
use bit_chat_pi.Protocol.Codec.RoundTrip.{IsSendable, encode_sent, sent_bytes}

-- The piece of number `i`, or nothing.
abbrev pub nth : List Bytes → ℕ → Bytes
nth [] i = []
nth (c ∷ cs) zero = c
nth (c ∷ cs) (suc i) = nth cs i

joined-shift :
    (f g : ℕ → Bytes) (i j n : ℕ)
    → ((k : ℕ) → f (suc k) ≡ g k)
    → i ≡ suc j
    → joined f i n ≡ joined g j n
joined-shift f g i j zero h e = refl
joined-shift f g i j (suc n) h e =
    let head : f i ≡ g j = ap f e ∙ h j in
    rw (head, joined-shift f g (i + 1) (j + 1) n h (omega (arith, e))) refl

pub joined-nth : (cs : List Bytes) → joined (nth cs) 0 (length cs) ≡ concat cs
joined-nth [] = refl
joined-nth (c ∷ cs) =
    rw
      (
        joined-shift (nth (c ∷ cs)) (nth cs) (0 + 1) 0 (length cs) (λ k. refl) (omega arith),
        joined-nth cs,
      )
      refl

pub nth-IsChunk :
    (size : ℕ) (cs : List Bytes) (i : ℕ)
    → All (IsChunk size) cs
    → i < length cs
    → IsChunk size (nth cs i)
nth-IsChunk size [] i h below = absurd (omega arith)
nth-IsChunk size (c ∷ cs) zero h below = h.0
nth-IsChunk size (c ∷ cs) (suc i) h below = nth-IsChunk size cs i h.1 (omega arith)

-- A packet that carries the fragment.
pub record Carries (p : Packet) (f : FragmentPayload) (q : Packet) : Type 0 where
  pub sender : q.sender_id ≡ p.sender_id
  pub shape : q ≡ fragment_packet p q.payload
  pub payload : decode_fragment_payload q.payload ≡ some f

module _ (p : Packet) (frag_id : Bytes) (total : ℕ) (id_size : length frag_id ≡ 8)
    (type_byte : p.type < 256) (fits : total < 65536) where
  abbrev piece : ℕ → Bytes → FragmentPayload
  piece i c = record {
    frag_id = frag_id;
    index = i;
    total = total;
    original_type = p.type;
    chunk = c;
  }

  Carries-cons :
      (index : ℕ) (c : Bytes) (cs : List Bytes) (xs : Bytes) (packets : List Packet)
      → decode_fragment_payload xs ≡ some (piece index c)
      → ((i : ℕ) (q : Packet)
          → get_elem? packets i ≡ some q
          → Carries p (piece (index + 1 + i) (nth cs i)) q)
      → (i : ℕ) (q : Packet) → get_elem? (fragment_packet p xs ∷ packets) i ≡ some q
      → Carries p (piece (index + i) (nth (c ∷ cs) i)) q
  Carries-cons index c cs xs packets d each zero q e =
      let same : fragment_packet p xs ≡ q = cc in
      let here : index ≡ index + 0 = omega arith in
      subst (λ k. Carries p (piece k c) q) here
        (subst (λ r. Carries p (piece index c) r) same
          (record { sender = refl; shape = refl; payload = d }))
  Carries-cons index c cs xs packets d each (suc i) q e =
      let there : index + 1 + i ≡ index + suc i = omega arith in
      subst (λ k. Carries p (piece k (nth cs i)) q) there (each i q e)

  fragments_from-Carries :
      (index : ℕ) (cs : List Bytes)
      → index + length cs ≤ total
      → (packets : List Packet) × (fragments_from p frag_id total index cs ≡ some packets)
        × (length packets ≡ length cs)
        × ((i : ℕ) (q : Packet)
            → get_elem? packets i ≡ some q
            → Carries p (piece (index + i) (nth cs i)) q)
  unfolding fragments_from
  fragments_from-Carries index [] h = ([], refl, refl, λ i q e. cc)
  fragments_from-Carries index (c ∷ cs) h =
      let (xs, e, d) = decode-encode_fragment_payload (piece index c) (record {
        frag_id = id_size;
        index = omega arith;
        total = fits;
        original_type = type_byte;
      }) in
      let (packets, es, len, each) = fragments_from-Carries (index + 1) cs (omega arith) in
      (
        fragment_packet p xs ∷ packets,
        rw (e, es) refl,
        ap suc len,
        Carries-cons index c cs xs packets d each,
      )

module _ (z : Zlib) (now : ℕ) (p : Packet) where
  abbrev pub pieces : List Bytes
  pieces = chunks (max_data p) (sent_bytes z now p)

  -- The packet is sent in fragments: its encoding is longer than 512 bytes, stripping the padding
  -- leaves the encoding whole, and there is room for data in at most 256 fragments.
  pub record IsSplit : Type 0 where
    pub sendable : IsSendable now p
    pub whole : unpad (pad (sent_bytes z now p)) ≡ sent_bytes z now p
    pub long : 512 < length (sent_bytes z now p)
    pub room : 0 < max_data p
    pub few : length (chunks (max_data p) (sent_bytes z now p)) ≤ 256

  module _ (frag_id : Bytes) (split : IsSplit) where
    create_fragments-pieces :
        create_fragments z now frag_id p ≡ fragments_from p frag_id (length pieces) 0 pieces
    unfolding create_fragments
    create_fragments-pieces =
        let long : leb 512 (length (sent_bytes z now p)) ≡ true = ground (arith, split.long) in
        let short : leb (length (sent_bytes z now p)) 512 ≡ false = ground (arith, split.long) in
        let some_data : (max_data p == 0) ≡ false = ground (arith, split.room) in
        rw (encode_sent z now p split.sendable, create_fragments, split.whole, short, some_data)
          refl

    pub max_data-le : max_data p ≤ 469
    unfolding max_data
    max_data-le = omega arith

    pub pieces-IsChunk : (concat pieces ≡ sent_bytes z now p) × All (IsChunk (max_data p)) pieces
    pieces-IsChunk = concat-chunks (max_data p) (sent_bytes z now p) split.room

    module _ (id_size : length frag_id ≡ 8) where
      pub created :
          (packets : List Packet) × (create_fragments z now frag_id p ≡ some packets)
          × (length packets ≡ length pieces)
          × ((i : ℕ) (q : Packet)
              → get_elem? packets i ≡ some q
              → Carries p (nth_payload frag_id (length pieces) p.type (nth pieces) i) q)
      created =
          let (packets, e, len, each) =
            fragments_from-Carries p frag_id (length pieces) id_size split.sendable.type_byte
              (omega (arith, split.few)) 0 pieces (omega arith) in
          (
            packets,
            create_fragments-pieces ∙ e,
            len,
            λ i q at.
                let zero_plus : 0 + i ≡ i = omega arith in
                subst
                  (λ k.
                    Carries p
                      (record {
                        frag_id = frag_id;
                        index = k;
                        total = length pieces;
                        original_type = p.type;
                        chunk = nth pieces i;
                      })
                      q)
                  zero_plus (each i q at),
          )
