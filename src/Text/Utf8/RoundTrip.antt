-- ===== src/Text/Utf8/RoundTrip.antt =====
-- What is encoded is decoded to the same text, in both modes.
use bit_chat_pi.Prelude.{
  >>=-eq-some, All, All-append, Bool-cases, List, Option, [], ap, arith, if◌then◌else◌, inl, inr,
  ltb, lt→ltb, map, refl, require, require-eq-some, some, true, ℕ, ◌%◌, ◌*◌, ◌++◌, ◌+◌, ◌-◌, ◌/◌,
  ◌<◌, ◌==◌, ◌>>=◌, ◌∙◌, ◌∷◌, ◌≡◌, ◌≤◌,
}
use bit_chat_pi.Text.{Text}
use bit_chat_pi.Bytes.{Bytes, IsByte, IsBytes}
use bit_chat_pi.Text.Utf8.{
  Utf8State, ascii_decode, encode_char, feed, inside, is_scalar, lead, no_errors, replaced, start,
  utf8_decode, utf8_decode_replace, utf8_encode, utf8_items,
}

feed_last :
    (low high acc b : ℕ)
    → low ≤ b
    → b ≤ high
    → feed (inside 1 low high acc) b ≡ (some (acc * 64 + (b - 0x80)) ∷ [], start)
unfolding feed
feed_last low high acc b h k = ground arith

feed_more :
    (left low high acc b : ℕ)
    → low ≤ b
    → b ≤ high
    → 1 < left
    → feed (inside left low high acc) b ≡ ([], inside (left - 1) 0x80 0xbf (acc * 64 + (b - 0x80)))
unfolding feed
feed_more left low high acc b h k l = ground arith

lead_two : (q : ℕ) → 2 ≤ q → q < 32 → lead (0xc0 + q) ≡ ([], inside 1 0x80 0xbf q)
unfolding lead
lead_two q h k = ground arith

lead_three :
    (q : ℕ)
    → q < 16
    → lead (0xe0 + q)
      ≡ ([], inside 2 (if q == 0 then 0xa0 else 0x80) (if q == 13 then 0x9f else 0xbf) q)
unfolding lead
lead_three q h = ground arith

lead_four :
    (q : ℕ)
    → q < 5
    → lead (0xf0 + q)
      ≡ ([], inside 3 (if q == 0 then 0x90 else 0x80) (if q == 4 then 0x8f else 0xbf) q)
unfolding lead
lead_four q h = ground arith

-- One byte that is fed.
utf8_items-feed :
    (st st' : Utf8State) (b : ℕ) (out : List (Option ℕ)) (bs : Bytes)
    → feed st b ≡ (out, st')
    → utf8_items st (b ∷ bs) ≡ out ++ utf8_items st' bs
unfolding utf8_items
utf8_items-feed start st' b out bs e = ap (λ x. x.0 ++ utf8_items x.1 bs) e
utf8_items-feed (inside left low high acc) st' b out bs e = ap (λ x. x.0 ++ utf8_items x.1 bs) e

utf8_items-lead :
    (st' : Utf8State) (b : ℕ) (out : List (Option ℕ)) (bs : Bytes)
    → lead b ≡ (out, st')
    → utf8_items start (b ∷ bs) ≡ out ++ utf8_items st' bs
unfolding utf8_items feed
utf8_items-lead st' b out bs e = ap (λ x. x.0 ++ utf8_items x.1 bs) e

-- The rest of a character of two, three and four bytes.
two_bytes :
    (low high q r : ℕ) (rest : Bytes)
    → low ≤ 0x80 + r
    → 0x80 + r ≤ high
    → utf8_items (inside 1 low high q) ((0x80 + r) ∷ rest)
      ≡ some (q * 64 + r) ∷ utf8_items start rest
two_bytes low high q r rest h k =
    utf8_items-feed (inside 1 low high q) start (0x80 + r) (some (q * 64 + (0x80 + r - 0x80)) ∷ [])
      rest (feed_last low high q (0x80 + r) h k)
    ∙ ap (λ n. some n ∷ utf8_items start rest) (omega arith)

three_bytes :
    (low high q r s : ℕ) (rest : Bytes)
    → low ≤ 0x80 + r
    → 0x80 + r ≤ high
    → s < 64
    → utf8_items (inside 2 low high q) ((0x80 + r) ∷ (0x80 + s) ∷ rest)
      ≡ some ((q * 64 + r) * 64 + s) ∷ utf8_items start rest
three_bytes low high q r s rest h k l =
    utf8_items-feed (inside 2 low high q) (inside 1 0x80 0xbf (q * 64 + (0x80 + r - 0x80)))
      (0x80 + r) [] ((0x80 + s) ∷ rest) (feed_more 2 low high q (0x80 + r) h k (omega arith))
    ∙ two_bytes 0x80 0xbf (q * 64 + (0x80 + r - 0x80)) s rest (omega arith) (omega arith)
    ∙ ap (λ n. some n ∷ utf8_items start rest) (omega arith)

four_bytes :
    (low high q r s t : ℕ) (rest : Bytes)
    → low ≤ 0x80 + r
    → 0x80 + r ≤ high
    → s < 64
    → t < 64
    → utf8_items (inside 3 low high q) ((0x80 + r) ∷ (0x80 + s) ∷ (0x80 + t) ∷ rest)
      ≡ some (((q * 64 + r) * 64 + s) * 64 + t) ∷ utf8_items start rest
four_bytes low high q r s t rest h k l m =
    utf8_items-feed (inside 3 low high q) (inside 2 0x80 0xbf (q * 64 + (0x80 + r - 0x80)))
      (0x80 + r) [] ((0x80 + s) ∷ (0x80 + t) ∷ rest)
      (feed_more 3 low high q (0x80 + r) h k (omega arith))
    ∙ three_bytes 0x80 0xbf (q * 64 + (0x80 + r - 0x80)) s t rest (omega arith) (omega arith) m
    ∙ ap (λ n. some n ∷ utf8_items start rest) (omega arith)

-- The bytes of a character are read as that character.
utf8_items-encode_char :
    (c : ℕ) (rest : Bytes)
    → is_scalar c ≡ true
    → utf8_items start (encode_char c ++ rest) ≡ some c ∷ utf8_items start rest
unfolding encode_char
utf8_items-encode_char c rest h = elim (Bool-cases (ltb c 0x80)) [
  | inl one ↦ rw one (utf8_items-lead start c (some c ∷ []) rest (unfold lead in ground arith))
  | inr more ↦ rw more (elim (Bool-cases (ltb c 0x800)) [
    | inl two ↦ rw two (
        utf8_items-lead (inside 1 0x80 0xbf (c / 64)) (0xc0 + c / 64) [] ((0x80 + c % 64) ∷ rest)
          (lead_two (c / 64) (ground arith) (ground arith))
        ∙ two_bytes 0x80 0xbf (c / 64) (c % 64) rest (omega arith) (omega arith)
        ∙ ap (λ n. some n ∷ utf8_items start rest) (omega arith))
    | inr more' ↦ rw more' (elim (Bool-cases (ltb c 0x1_0000)) [
      | inl three ↦ rw three (
          utf8_items-lead
            (inside 2 (if c / 4096 == 0 then 0xa0 else 0x80) (if c / 4096 == 13 then 0x9f else 0xbf)
              (c / 4096))
            (0xe0 + c / 4096) [] ((0x80 + c / 64 % 64) ∷ (0x80 + c % 64) ∷ rest)
            (lead_three (c / 4096) (ground arith))
          ∙ three_bytes (if c / 4096 == 0 then 0xa0 else 0x80)
              (if c / 4096 == 13 then 0x9f else 0xbf) (c / 4096) (c / 64 % 64) (c % 64) rest
              (ground arith) (ground arith) (omega arith)
          ∙ ap (λ n. some n ∷ utf8_items start rest) (omega arith))
      | inr four ↦ rw four (
          utf8_items-lead
            (inside 3 (if c / 262144 == 0 then 0x90 else 0x80)
              (if c / 262144 == 4 then 0x8f else 0xbf) (c / 262144))
            (0xf0 + c / 262144) []
            ((0x80 + c / 4096 % 64) ∷ (0x80 + c / 64 % 64) ∷ (0x80 + c % 64) ∷ rest)
            (lead_four (c / 262144) (ground arith))
          ∙ four_bytes (if c / 262144 == 0 then 0x90 else 0x80)
              (if c / 262144 == 4 then 0x8f else 0xbf) (c / 262144) (c / 4096 % 64) (c / 64 % 64)
              (c % 64) rest (ground arith) (ground arith) (omega arith) (omega arith)
          ∙ ap (λ n. some n ∷ utf8_items start rest) (omega arith))
    ])
  ])
]

-- The characters of an encoded text, without an error among them.
pub utf8_items-utf8_encode :
    (cs : Text) (bytes : Bytes) → utf8_encode cs ≡ some bytes → utf8_items start bytes ≡ map some cs
unfolding utf8_encode
utf8_items-utf8_encode [] bytes e = let e' : bytes ≡ [] = cc in rw e' (unfold utf8_items in refl)
utf8_items-utf8_encode (c ∷ cs) bytes e =
    let (rest, er, e') =
      >>=-eq-some (utf8_encode cs)
        (λ rest. do _ ← require (is_scalar c); some (encode_char c ++ rest)) e in
    let (u, ok, e'') = >>=-eq-some (require (is_scalar c)) (λ _. some (encode_char c ++ rest)) e' in
    let whole : bytes ≡ encode_char c ++ rest = cc in
    rw whole (
      utf8_items-encode_char c rest (require-eq-some (is_scalar c) ok)
      ∙ ap (◌∷◌ (some c)) (utf8_items-utf8_encode cs rest er))

no_errors-map-some : (cs : Text) → no_errors (map some cs) ≡ some cs
no_errors-map-some [] = refl
no_errors-map-some (c ∷ cs) = rw (no_errors-map-some cs) refl

replaced-map-some : (cs : Text) → replaced (map some cs) ≡ cs
replaced-map-some [] = refl
replaced-map-some (c ∷ cs) = ap (◌∷◌ c) (replaced-map-some cs)

pub utf8_decode-utf8_encode :
    (cs : Text) (bytes : Bytes) → utf8_encode cs ≡ some bytes → utf8_decode bytes ≡ some cs
unfolding utf8_decode
utf8_decode-utf8_encode cs bytes e = rw (utf8_items-utf8_encode cs bytes e) (no_errors-map-some cs)

pub utf8_decode_replace-utf8_encode :
    (cs : Text) (bytes : Bytes) → utf8_encode cs ≡ some bytes → utf8_decode_replace bytes ≡ cs
unfolding utf8_decode_replace
utf8_decode_replace-utf8_encode cs bytes e =
    rw (utf8_items-utf8_encode cs bytes e) (replaced-map-some cs)

-- A text of ASCII is its own encoding.
abbrev pub IsAscii : List ℕ → Type 0
IsAscii = All (λ c. c < 0x80)

pub utf8_encode_ascii : (cs : Text) → IsAscii cs → utf8_encode cs ≡ some cs
unfolding utf8_encode encode_char
utf8_encode_ascii [] h = refl
utf8_encode_ascii (c ∷ cs) h =
    rw (utf8_encode_ascii cs h.1, lt→ltb c 0x80 h.0, lt→ltb c 0xd800 (omega arith)) refl

pub ascii_decode_ascii : (cs : Text) → IsAscii cs → ascii_decode cs ≡ some cs
unfolding ascii_decode
ascii_decode_ascii [] h = refl
ascii_decode_ascii (c ∷ cs) h = rw (ascii_decode_ascii cs h.1, lt→ltb c 0x80 h.0) refl

-- Bytes are encoded to bytes.
encode_char-IsBytes : (c : ℕ) → is_scalar c ≡ true → IsBytes (encode_char c)
unfolding encode_char
encode_char-IsBytes c h = ground arith

pub utf8_encode-IsBytes : (cs : Text) (bytes : Bytes) → utf8_encode cs ≡ some bytes → IsBytes bytes
unfolding utf8_encode
utf8_encode-IsBytes [] bytes e = let e' : bytes ≡ [] = cc in rw e' tt
utf8_encode-IsBytes (c ∷ cs) bytes e =
    let (rest, er, e') =
      >>=-eq-some (utf8_encode cs)
        (λ rest. do _ ← require (is_scalar c); some (encode_char c ++ rest)) e in
    let (u, ok, e'') = >>=-eq-some (require (is_scalar c)) (λ _. some (encode_char c ++ rest)) e' in
    let whole : bytes ≡ encode_char c ++ rest = cc in
    rw whole (
      All-append IsByte (encode_char c) rest
        (encode_char-IsBytes c (require-eq-some (is_scalar c) ok)) (utf8_encode-IsBytes cs rest er))
