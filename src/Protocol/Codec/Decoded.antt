-- ===== src/Protocol/Codec/Decoded.antt =====
-- What `_decode_raw` guarantees of any packet that it returns, whatever the input.
use bit_chat_pi.Prelude.{
  >>=-eq-some, All, Bool-cases, Ensures, Ensures-bind, Ensures-some, IsOptional, List, Option,
  Option-cases, arith, drop, get_elem?, inl, inr, is_some, leb, leb→le, length, length-drop,
  length-take, require, require-eq-some, some, suc, true, zero, ℕ, ◌&&◌, ◌+◌, ◌-◌, ◌==◌, ◌||◌, ◌∙◌,
  ◌≡◌, ◌≤◌,
}
use bit_chat_pi.Bytes.{Bytes, slice}
use bit_chat_pi.Protocol.Packet.{Packet}
use bit_chat_pi.Protocol.Codec.Decode.{
  Header, decode, decode_raw, expand, has_flag, read_body, read_header, read_hops, read_id,
  read_length, read_recipient, read_route, read_signature, unpack,
}
use bit_chat_pi.Protocol.Codec.Readers.{IsId}
use bit_chat_pi.Protocol.Codec.Parts.{IsSignature}
use bit_chat_pi.Zlib.{Zlib}
use bit_chat_pi.Protocol.Constants.{has_route, max_payload_length}
use bit_chat_pi.Protocol.Codec.Headers.{IsVersion}
use bit_chat_pi.Protocol.Padding.{unpad}

length-slice : (xs : Bytes) (o n : ℕ) → o + n ≤ length xs → length (slice xs o (o + n)) ≡ n
length-slice xs o n h = omega (arith, length-take (o + n - o) (drop o xs), length-drop o xs)

read_id_gives :
    (xs : Bytes) (o : ℕ) {id : Bytes} {p : ℕ} → read_id xs o ≡ some (id, p) → IsId id × (o ≤ p)
unfolding read_id
read_id_gives xs o h = ground (arith, length-slice xs o 8)

read_recipient_gives :
    (flags : ℕ) (xs : Bytes) (o : ℕ) {r : Option Bytes} {p : ℕ}
    → read_recipient flags xs o ≡ some (r, p)
    → IsOptional IsId r × (o ≤ p)
unfolding read_recipient read_id
read_recipient_gives flags xs o h = ground (arith, length-slice xs o 8)

read_hops_gives :
    (n : ℕ) (xs : Bytes) (o : ℕ) {hops : List Bytes} {p : ℕ}
    → read_hops n xs o ≡ some (hops, p)
    → All IsId hops × (length hops ≡ n) × (o ≤ p)
unfolding read_hops
read_hops_gives zero xs o h = ground arith
read_hops_gives (suc n) xs o h =
    let ((id, o'), e, h') = >>=-eq-some (read_id xs o) _ h in
    let ((hops, o''), e', h'') = >>=-eq-some (read_hops n xs o') _ h' in
    let a = read_id_gives xs o e in let b = read_hops_gives n xs o' e' in ground arith

read_route_gives :
    (flags v : ℕ) (xs : Bytes) (o : ℕ) {r : Option (List Bytes)} {p : ℕ}
    → read_route flags v xs o ≡ some (r, p)
    → IsOptional (All IsId) r × (is_some r ≡ true → 2 ≤ v) × (o ≤ p)
unfolding read_route
read_route_gives flags v xs o {r} {p} h = elim (Bool-cases (has_flag flags has_route && leb 2 v)) [
  | inl on ↦
      let (u, _, h1) =
        >>=-eq-some (require (leb (o + 1) (length xs))) _ (rw (on, read_route) at h) in
      let (count, _, h2) = >>=-eq-some (get_elem? xs o) _ h1 in
      let ((hops, o'), e, h3) = >>=-eq-some (read_hops count xs (o + 1)) _ h2 in
      let b = read_hops_gives count xs (o + 1) e in ground arith
  | inr off ↦ ground arith
]

read_signature_gives :
    (flags : ℕ) (xs : Bytes) (o : ℕ) → IsOptional IsSignature (read_signature flags xs o)
unfolding read_signature
read_signature_gives flags xs o = ground (arith, length-slice xs o 64)

abbrev IsHeader : Header → Type 0
IsHeader h = IsVersion h.version × (h.payload_len ≤ max_payload_length)

known_version : (v : ℕ) → (v == 1 || v == 2) ≡ true → IsVersion v
known_version v h = ground arith

read_header-IsHeader : (xs : Bytes) → Ensures IsHeader (read_header xs)
unfolding read_header
read_header-IsHeader xs = Ensures-bind {m = require (leb 22 (length xs))} λ _ _.
    Ensures-bind {m = get_elem? xs 0} λ version _.
      Ensures-bind {m = require (version == 1 || version == 2)} λ _ known.
        Ensures-bind {m = get_elem? xs 1} λ type _. Ensures-bind {m = get_elem? xs 2} λ ttl _.
          Ensures-bind {m = unpack 8 xs 3} λ timestamp _.
            Ensures-bind {m = get_elem? xs 11} λ flags _.
              Ensures-bind {m = read_length version xs} λ (len, o) _.
                Ensures-bind {m = require (leb len max_payload_length)} λ _ small. Ensures-some (
                  known_version version (require-eq-some _ known),
                  leb→le _ _ (require-eq-some _ small),
                )

-- The identifiers have 8 bytes and the signature 64, and only version 2 has a route.
pub record IsReceived (p : Packet) : Type 0 where
  pub version : IsVersion p.version
  pub sender : IsId p.sender_id
  pub recipient : IsOptional IsId p.recipient_id
  pub route : IsOptional (All IsId) p.route
  pub routed : is_some p.route ≡ true → p.version ≡ 2
  pub signature : IsOptional IsSignature p.signature

routed_two : (v : ℕ) → IsVersion v → 2 ≤ v → v ≡ 2
routed_two v h k = ground arith

read_body-IsReceived :
    (z : Zlib) (h : Header) (xs : Bytes) → IsHeader h → Ensures IsReceived (read_body z h xs)
unfolding read_body
read_body-IsReceived z h xs known = Ensures-bind λ (sender, o1) es.
    Ensures-bind λ (recipient, o2) er. Ensures-bind λ (route, o3) et.
      Ensures-bind {m = require (leb (o3 + h.payload_len) (length xs))} λ _ _.
        Ensures-bind {m = expand z h.flags h.version (slice xs o3 (o3 + h.payload_len))}
          λ payload _. Ensures-some (record {
            version = known.0;
            sender = (read_id_gives xs h.offset es).0;
            recipient = (read_recipient_gives h.flags xs o1 er).0;
            route = (read_route_gives h.flags h.version xs o2 et).0;
            routed = λ r.
                routed_two h.version known.0 ((read_route_gives h.flags h.version xs o2 et).1 r);
            signature = read_signature_gives h.flags xs (o3 + h.payload_len);
          })

decode_raw-IsReceived : (z : Zlib) (xs : Bytes) → Ensures IsReceived (decode_raw z xs)
unfolding decode_raw
decode_raw-IsReceived z xs =
    Ensures-bind λ h e. read_body-IsReceived z h xs ((read_header-IsHeader xs).at h e)

-- Whatever bytes are decoded, the packet has a known version, identifiers of 8 bytes, hops of 8
-- bytes, a route in version 2 only, and a signature of 64 bytes or none.
pub decode-IsReceived : (z : Zlib) (xs : Bytes) (p : Packet) → decode z xs ≡ some p → IsReceived p
unfolding decode
decode-IsReceived z xs p e = elim (Option-cases (decode_raw z xs)) [
  | inl failed ↦ (decode_raw-IsReceived z (unpad xs)).at p (rw (failed, decode) at e)
  | inr (q, found) ↦ (decode_raw-IsReceived z xs).at p (found ∙ (rw (found, decode) at e))
]
