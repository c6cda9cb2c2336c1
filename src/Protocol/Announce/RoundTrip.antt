-- ===== src/Protocol/Announce/RoundTrip.antt =====
-- What an announcement says is what its receiver reads.
use bit_chat_pi.Text.Utf8.RoundTrip.{utf8_decode_replace-utf8_encode}
use bit_chat_pi.Text.Utf8.{utf8_decode_replace, utf8_encode}
use bit_chat_pi.Prelude.{
  >>=-eq-some, Bool-cases, [], ap, append-nil, arith, drop, drop-append, inl, inr, leb, length,
  length-append, length-drop, ltb, refl, require, some, suc, sym, take, take-append, take_whole,
  true, zero, ℕ, ◌++◌, ◌+◌, ◌-◌, ◌<◌, ◌>>=◌, ◌∙◌, ◌∷◌, ◌≡◌, ◌≤◌,
}
use bit_chat_pi.Text.{Text}
use bit_chat_pi.Bytes.{Bytes}
use bit_chat_pi.Protocol.Announce.{
  AnnounceFields, AnnouncePayload, decode_announce, decode_fields, encode_announce, encode_tlv,
  no_fields, store, tag_nickname, tag_noise_pub, tag_sign_pub,
}

-- One field that is read.
decode_fields-encode_tlv :
    (fuel tag : ℕ) (val tlv rest : Bytes) (a : AnnounceFields)
    → encode_tlv tag val ≡ some tlv
    → decode_fields (suc fuel) (tlv ++ rest) a ≡ decode_fields fuel rest (store tag val a)
unfolding encode_tlv decode_fields
decode_fields-encode_tlv fuel tag val tlv rest a e =
    let (u, small, e') =
      >>=-eq-some (require (ltb (length val) 256)) (λ _. some (tag ∷ length val ∷ val)) e in
    let shape : tlv ≡ tag ∷ length val ∷ val = cc in
    let fits : leb (length val) (length (val ++ rest)) ≡ true =
      ground (arith, length-append val rest) in
    rw
      (
        shape,
        fits,
        decode_fields,
        drop-append (length val) val rest refl,
        take-append (length val) val rest refl,
      )
      refl

encode_tlv-length :
    (tag : ℕ) (val tlv : Bytes) → encode_tlv tag val ≡ some tlv → length tlv ≡ length val + 2
unfolding encode_tlv
encode_tlv-length tag val tlv e =
    let (u, small, e') =
      >>=-eq-some (require (ltb (length val) 256)) (λ _. some (tag ∷ length val ∷ val)) e in
    let shape : tlv ≡ tag ∷ length val ∷ val = cc in rw shape (omega arith)

-- More fuel than bytes changes nothing.
decode_fields_enough :
    (fuel : ℕ) (rest : Bytes) (a : AnnounceFields)
    → length rest ≤ fuel
    → decode_fields fuel rest a ≡ decode_fields (suc fuel) rest a
unfolding decode_fields
decode_fields_enough zero [] a h = refl
decode_fields_enough zero (tag ∷ rest) a h = absurd (omega arith)
decode_fields_enough (suc fuel) [] a h = refl
decode_fields_enough (suc fuel) (tag ∷ []) a h = refl
decode_fields_enough (suc fuel) (tag ∷ ln ∷ rest) a h = elim (Bool-cases (leb ln (length rest))) [
  | inl fits ↦
      rw (fits, decode_fields)
        (decode_fields_enough fuel (drop ln rest) (store tag (take ln rest) a)
          (omega (arith, length-drop ln rest)))
  | inr short ↦ rw (short, decode_fields) refl
]

-- The same with the fuel as a number that is large enough.
decode_fields_next :
    (fuel tag : ℕ) (val tlv rest : Bytes) (a : AnnounceFields)
    → encode_tlv tag val ≡ some tlv
    → 0 < fuel
    → decode_fields fuel (tlv ++ rest) a ≡ decode_fields (fuel - 1) rest (store tag val a)
decode_fields_next zero tag val tlv rest a e h = absurd (omega arith)
decode_fields_next (suc fuel) tag val tlv rest a e h =
    decode_fields-encode_tlv fuel tag val tlv rest a e
    ∙ ap (λ n. decode_fields n rest (store tag val a)) (omega arith)

decode_fields_end : (fuel : ℕ) (a : AnnounceFields) → decode_fields fuel [] a ≡ some a
unfolding decode_fields
decode_fields_end zero a = refl
decode_fields_end (suc fuel) a = refl

-- The three fields of a payload.
record Parts (nick noise_pub sign_pub payload : Bytes) : Type 0 where
  pub first : Bytes
  pub second : Bytes
  pub third : Bytes
  pub first_made : encode_tlv tag_nickname (take 15 nick) ≡ some first
  pub second_made : encode_tlv tag_noise_pub noise_pub ≡ some second
  pub third_made : encode_tlv tag_sign_pub sign_pub ≡ some third
  pub shape : payload ≡ first ++ (second ++ (third ++ []))

encode_announce-Parts :
    (nickname : Text) (noise_pub sign_pub nick payload : Bytes)
    → utf8_encode nickname ≡ some nick
    → encode_announce nickname noise_pub sign_pub ≡ some payload
    → Parts nick noise_pub sign_pub payload
unfolding encode_announce
encode_announce-Parts nickname noise_pub sign_pub nick payload en e =
    let (nick', en', e1) =
      >>=-eq-some (utf8_encode nickname)
        (λ nick. do
          first ← encode_tlv tag_nickname (take 15 nick)
          second ← encode_tlv tag_noise_pub noise_pub
          third ← encode_tlv tag_sign_pub sign_pub
          some (first ++ (second ++ third)))
        e in
    let same : nick' ≡ nick = cc in
    let (first, m1, e2) =
      >>=-eq-some (encode_tlv tag_nickname (take 15 nick'))
        (λ first. do
          second ← encode_tlv tag_noise_pub noise_pub
          third ← encode_tlv tag_sign_pub sign_pub
          some (first ++ (second ++ third)))
        e1 in
    let (second, m2, e3) =
      >>=-eq-some (encode_tlv tag_noise_pub noise_pub)
        (λ second. do third ← encode_tlv tag_sign_pub sign_pub; some (first ++ (second ++ third)))
        e2 in
    let (third, m3, e4) =
      >>=-eq-some (encode_tlv tag_sign_pub sign_pub) (λ third. some (first ++ (second ++ third)))
        e3 in
    record {
      first = first;
      second = second;
      third = third;
      first_made = ap (λ n. encode_tlv tag_nickname (take 15 n)) (sym same) ∙ m1;
      second_made = m2;
      third_made = m3;
      shape = cc (append-nil third);
    }

-- What the fields of an announcement become: of the nickname, the first fifteen bytes.
pub decode_announce_cut :
    (nickname : Text) (noise_pub sign_pub nick payload : Bytes)
    → utf8_encode nickname ≡ some nick
    → encode_announce nickname noise_pub sign_pub ≡ some payload
    → decode_announce payload
      ≡ some (record {
        nickname = utf8_decode_replace (take 15 nick);
        noise_pub = noise_pub;
        sign_pub = sign_pub;
      })
unfolding decode_announce store
decode_announce_cut nickname noise_pub sign_pub nick payload en e =
    let parts = encode_announce-Parts nickname noise_pub sign_pub nick payload en e in
    let x = parts.first in
    let y = parts.second in
    let z = parts.third in
    let n = length payload in
    let long : n ≡ length x + (length y + (length z + 0)) =
      ap length parts.shape
      ∙ omega (
        arith,
        length-append x (y ++ (z ++ [])),
        length-append y (z ++ []),
        length-append z [],
      ) in
    let lx = encode_tlv-length tag_nickname (take 15 nick) x parts.first_made in
    let ly = encode_tlv-length tag_noise_pub noise_pub y parts.second_made in
    let lz = encode_tlv-length tag_sign_pub sign_pub z parts.third_made in
    let a1 = store tag_nickname (take 15 nick) no_fields in
    let a2 = store tag_noise_pub noise_pub a1 in
    let read : decode_fields n payload no_fields ≡ some (store tag_sign_pub sign_pub a2) =
      ap (λ xs. decode_fields n xs no_fields) parts.shape
      ∙ decode_fields_next n tag_nickname (take 15 nick) x (y ++ (z ++ [])) no_fields
          parts.first_made (omega arith)
      ∙ decode_fields_next (n - 1) tag_noise_pub noise_pub y (z ++ []) a1 parts.second_made
          (omega arith)
      ∙ decode_fields_next (n - 1 - 1) tag_sign_pub sign_pub z [] a2 parts.third_made (omega arith)
      ∙ decode_fields_end (n - 1 - 1 - 1) (store tag_sign_pub sign_pub a2) in
    rw read refl

-- A nickname of at most fifteen bytes and the two keys come back.
pub decode_announce-encode_announce :
    (nickname : Text) (noise_pub sign_pub nick payload : Bytes)
    → utf8_encode nickname ≡ some nick
    → length nick ≤ 15
    → encode_announce nickname noise_pub sign_pub ≡ some payload
    → decode_announce payload
      ≡ some (record { nickname = nickname; noise_pub = noise_pub; sign_pub = sign_pub })
decode_announce-encode_announce nickname noise_pub sign_pub nick payload en short e =
    decode_announce_cut nickname noise_pub sign_pub nick payload en e
    ∙ ap
        (λ name.
          let p : AnnouncePayload = record {
            nickname = name;
            noise_pub = noise_pub;
            sign_pub = sign_pub;
          } in
          some p)
        (ap utf8_decode_replace (take_whole 15 nick short)
          ∙ utf8_decode_replace-utf8_encode nickname nick en)
