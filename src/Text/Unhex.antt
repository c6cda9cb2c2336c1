-- ===== src/Text/Unhex.antt =====
-- `bytes.fromhex`: pairs of digits, with white space between the pairs.
use bit_chat_pi.Prelude.{
  Bool, Option, [], ap, arith, false, if◌then◌else◌, leb, none, refl, some, true, ℕ, ◌%◌, ◌&&◌, ◌*◌,
  ◌+◌, ◌-◌, ◌/◌, ◌<◌, ◌==◌, ◌>>=◌, ◌||◌, ◌∷◌, ◌≡◌,
}
use bit_chat_pi.Bytes.{Bytes, IsBytes}
use bit_chat_pi.Text.{Text}
use bit_chat_pi.Text.Hex.{hex, hex_digit}

-- The white space of ASCII.
abbrev is_blank : ℕ → Bool
is_blank c = (leb 9 c && leb c 13) || c == 32

unfoldable pub hex_value : ℕ → Option ℕ
hex_value c =
    if leb b'0' c && leb c b'9'
    then some (c - b'0')
    else if leb b'a' c && leb c b'f'
    then some (c - 87)
    else if leb b'A' c && leb c b'F'
    then some (c - 55)
    else none

-- `high` is the first digit of a pair that was read; `none` is ValueError.
unfoldable pub unhex_from : Option ℕ → Text → Option Bytes
unfolding hex_value
unhex_from none [] = some []
unhex_from (some high) [] = none
unhex_from none (c ∷ cs) = elim (is_blank c) [
  | true ↦ unhex_from none cs
  | false ↦ elim (hex_value c) [ none ↦ none | some high ↦ unhex_from (some high) cs ]
]
unhex_from (some high) (c ∷ cs) = do
  low ← hex_value c
  rest ← unhex_from none cs
  some ((high * 16 + low) ∷ rest)

unfoldable pub unhex : Text → Option Bytes
unfolding unhex_from
unhex = unhex_from none

hex_value-hex_digit : (d : ℕ) → d < 16 → hex_value (hex_digit d) ≡ some d
unfolding hex_value hex_digit
hex_value-hex_digit d h = ground arith

hex_digit-not_blank : (d : ℕ) → d < 16 → is_blank (hex_digit d) ≡ false
unfolding hex_digit
hex_digit-not_blank d h = ground arith

-- The text of `hex` is read back.
pub unhex-hex : (xs : Bytes) → IsBytes xs → unhex (hex xs) ≡ some xs
unfolding unhex unhex_from hex
unhex-hex [] h = refl
unhex-hex (x ∷ xs) h =
    let high = hex_value-hex_digit (x / 16) (omega arith) in
    let low = hex_value-hex_digit (x % 16) (omega arith) in
    rw
      (
        hex_digit-not_blank (x / 16) (omega arith),
        unhex_from,
        high,
        unhex_from,
        low,
        unhex-hex xs h.1,
      )
      (ap (λ n. some (n ∷ xs)) (omega arith))
