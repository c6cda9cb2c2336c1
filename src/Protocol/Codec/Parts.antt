-- ===== src/Protocol/Codec/Parts.antt =====
-- The optional parts of a packet: what `encode` writes, and that `_decode_raw` reads it back.
use bit_chat_pi.Prelude.{
  All, IsOptional, List, Option, [], ap, arith, is_some, length, le→leb, none, refl, some,
  take_whole, true, ℕ, ◌*◌, ◌++◌, ◌+◌, ◌∙◌, ◌∷◌, ◌≡◌, ◌≤◌,
}
use bit_chat_pi.Bytes.{Bytes}
use bit_chat_pi.Bytes.Cursor.{At, At-get, At-next, At-step, length-At}
use bit_chat_pi.Protocol.Constants.{has_recipient, has_route, has_signature}
use bit_chat_pi.Protocol.Packet.{has_hops}
use bit_chat_pi.Protocol.Codec.Encode.{
  encode_hops, encode_recipient, encode_route, encode_signature, pad_peer_id,
}
use bit_chat_pi.Protocol.Codec.Decode.{
  has_flag, read_hops, read_recipient, read_route, read_signature,
}
use bit_chat_pi.Protocol.Codec.Readers.{
  IsId, length-hops, pad_peer_id-IsId, read_hops-At, read_id-At, read_signature-At,
}

-- A signature of 64 bytes, and at most 255 hops of 8 bytes.
abbrev pub IsRoute : List Bytes → Type 0
IsRoute hops = All IsId hops × (length hops ≤ 255)

abbrev pub IsSignature : Bytes → Type 0
IsSignature bytes = length bytes ≡ 64

-- A route without hops is not sent, and comes back as no route.
abbrev pub sent_route : Option (List Bytes) → Option (List Bytes)
sent_route none = none
sent_route (some []) = none
sent_route (some (hop ∷ hops)) = some (hop ∷ hops)

pub encode_route_hops :
    (hop : Bytes) (hops : List Bytes)
    → IsRoute (hop ∷ hops)
    → encode_route (some (hop ∷ hops)) ≡ length (hop ∷ hops) ∷ encode_hops (hop ∷ hops)
unfolding encode_route
encode_route_hops hop hops h = rw (take_whole 254 hops (omega arith))

module _ {xs : Bytes} {o : ℕ} (rest : Bytes) (flags : ℕ) where
  pub read_recipient-At :
      (r : Option Bytes)
      → IsOptional IsId r
      → has_flag flags has_recipient ≡ is_some r
      → At xs o (encode_recipient r ++ rest)
      → let p = o + length (encode_recipient r) in
        (read_recipient flags xs o ≡ some (r, p)) × At xs p rest
  unfolding read_recipient
  read_recipient-At none h f at = let e : o ≡ o + 0 = omega arith in (rw f (rw (← e)), rw e at at)
  read_recipient-At (some id) h f at =
      let e : length (pad_peer_id id) ≡ 8 = ap length (pad_peer_id-IsId id h) ∙ h in
      let at' : At xs o (id ++ rest) = rw (pad_peer_id-IsId id h) at at in
      (rw (f, read_id-At rest id h at', e), rw e (At-next id rest at' (o + 8) (omega arith)))

  pub read_route-At :
      (v : ℕ) (r : Option (List Bytes))
      → IsOptional IsRoute r
      → (has_hops r ≡ true → v ≡ 2)
      → has_flag flags has_route ≡ has_hops r
      → At xs o (encode_route r ++ rest)
      → let p = o + length (encode_route r) in
        (read_route flags v xs o ≡ some (sent_route r, p)) × At xs p rest
  unfolding read_route
  read_route-At v none h w f at =
      unfold encode_route in let e : o ≡ o + 0 = omega arith in (rw f (rw (← e)), rw e at at)
  read_route-At v (some []) h w f at =
      unfold encode_route in let e : o ≡ o + 0 = omega arith in (rw f (rw (← e)), rw e at at)
  read_route-At v (some (hop ∷ hops)) h w f at =
      let all : List Bytes = hop ∷ hops in
      let shape : encode_route (some all) ≡ length all ∷ encode_hops all =
        encode_route_hops hop hops h in
      let at' : At xs o (length all ∷ (encode_hops all ++ rest)) = rw shape at at in
      let more : (read_hops (length all) xs (o + 1) ≡ some (all, o + 1 + 8 * length all))
          × At xs (o + 1 + 8 * length all) rest =
        read_hops-At rest all (o + 1) (o + 1 + 8 * length all) h.0 refl
          (At-step (encode_hops all ++ rest) at') in
      let p : o + 1 + 8 * length all ≡ o + length (encode_route (some all)) =
        omega (arith, ap length shape, length-hops all h.0) in
      (
        rw (
          f,
          w refl,
          le→leb (o + 1) (length xs) (omega (arith, length-At _ at')),
          At-get _ at',
          more.0,
          p,
        ),
        rw p at more.1,
      )

  pub read_optional_signature-At :
      (s : Option Bytes)
      → IsOptional IsSignature s
      → has_flag flags has_signature ≡ is_some s
      → At xs o (encode_signature s ++ rest)
      → read_signature flags xs o ≡ s
  read_optional_signature-At none h f at = unfold read_signature in rw f
  read_optional_signature-At (some signature) h f at =
      read_signature-At rest flags signature f h (rw (take_whole 64 signature (omega arith)) at at)
