-- ===== src/Text/Utf8.antt =====
-- UTF-8 as Python's codecs have it: `str.encode` raises on a surrogate, `bytes.decode` is strict or
-- puts U+FFFD where the bytes are no character.
pub mod RoundTrip
use bit_chat_pi.Prelude.{
  Bool, List, Option, [], if◌then◌else◌, leb, ltb, none, require, some, ℕ, ◌%◌, ◌&&◌, ◌*◌, ◌++◌,
  ◌+◌, ◌-◌, ◌/◌, ◌==◌, ◌>>=◌, ◌||◌, ◌∷◌,
}
use bit_chat_pi.Bytes.{Bytes}

-- `c` is no surrogate.
abbrev pub is_scalar : ℕ → Bool
is_scalar c = ltb c 0xd800 || (leb 0xe000 c && ltb c 0x11_0000)

unfoldable pub encode_char : ℕ → Bytes
encode_char c =
    if ltb c 0x80
    then c ∷ []
    else if ltb c 0x800
    then (0xc0 + c / 64) ∷ (0x80 + c % 64) ∷ []
    else if ltb c 0x1_0000
    then (0xe0 + c / 4096) ∷ (0x80 + c / 64 % 64) ∷ (0x80 + c % 64) ∷ []
    else (0xf0 + c / 262144) ∷ (0x80 + c / 4096 % 64) ∷ (0x80 + c / 64 % 64) ∷ (0x80 + c % 64) ∷ []

-- `s.encode()`; `none` is UnicodeEncodeError.
unfoldable pub utf8_encode : List ℕ → Option Bytes
utf8_encode [] = some []
utf8_encode (c ∷ cs) = do
  rest ← utf8_encode cs
  _ ← require (is_scalar c)
  some (encode_char c ++ rest)

-- The decoder between two bytes: at the start of a character, or with `left` bytes to come, the next
-- of them from `low` to `high`, behind bytes of the value `acc`.
pub data Utf8State : Type 0 where
  start : Utf8State
  inside : (left low high acc : ℕ) → Utf8State

-- The first byte of a character; an error is `none`.
unfoldable pub lead : ℕ → List (Option ℕ) × Utf8State
lead b =
    if ltb b 0x80
    then (some b ∷ [], start)
    else if ltb b 0xc2
    then (none ∷ [], start)
    else if ltb b 0xe0
    then ([], inside 1 0x80 0xbf (b - 0xc0))
    else if ltb b 0xf0
    then (
      [],
      inside 2 (if b == 0xe0 then 0xa0 else 0x80) (if b == 0xed then 0x9f else 0xbf) (b - 0xe0),
    )
    else if ltb b 0xf5
    then (
      [],
      inside 3 (if b == 0xf0 then 0x90 else 0x80) (if b == 0xf4 then 0x8f else 0xbf) (b - 0xf0),
    )
    else (none ∷ [], start)

-- A byte that does not continue the character is an error, and is read once more as a first byte.
unfoldable pub feed : Utf8State → ℕ → List (Option ℕ) × Utf8State
unfolding lead
feed start b = lead b
feed (inside left low high acc) b =
    if leb low b && leb b high
    then (if left == 1
        then (some (acc * 64 + (b - 0x80)) ∷ [], start)
        else ([], inside (left - 1) 0x80 0xbf (acc * 64 + (b - 0x80))))
    else (none ∷ (lead b).0, (lead b).1)

-- The characters and errors of the bytes; the end inside a character is one error.
unfoldable pub utf8_items : Utf8State → Bytes → List (Option ℕ)
unfolding feed
utf8_items start [] = []
utf8_items (inside left low high acc) [] = none ∷ []
utf8_items st (b ∷ bs) = (feed st b).0 ++ utf8_items (feed st b).1 bs

abbrev pub no_errors : List (Option ℕ) → Option (List ℕ)
no_errors [] = some []
no_errors (none ∷ items) = none
no_errors (some c ∷ items) = do cs ← no_errors items; some (c ∷ cs)

abbrev pub replaced : List (Option ℕ) → List ℕ
replaced [] = []
replaced (none ∷ items) = 0xfffd ∷ replaced items
replaced (some c ∷ items) = c ∷ replaced items

-- `data.decode("utf-8")`; `none` is UnicodeDecodeError.
unfoldable pub utf8_decode : Bytes → Option (List ℕ)
unfolding utf8_items
utf8_decode bytes = no_errors (utf8_items start bytes)

-- `data.decode("utf-8", errors="replace")`
unfoldable pub utf8_decode_replace : Bytes → List ℕ
unfolding utf8_items
utf8_decode_replace bytes = replaced (utf8_items start bytes)

-- `data.decode("ascii")`
unfoldable pub ascii_decode : Bytes → Option (List ℕ)
ascii_decode [] = some []
ascii_decode (b ∷ bs) = do rest ← ascii_decode bs; _ ← require (ltb b 0x80); some (b ∷ rest)
