-- ===== src/Text/Hex.antt =====
-- `bytes.hex`: two lower-case digits for each byte.
use bit_chat_pi.Prelude.{[], arith, if◌then◌else◌, ltb, refl, ℕ, ◌%◌, ◌+◌, ◌/◌, ◌<◌, ◌∷◌, ◌≡◌, ◌≢◌}
use bit_chat_pi.Bytes.{Bytes, IsBytes}
use bit_chat_pi.Text.{Text}

unfoldable pub hex_digit : ℕ → ℕ
hex_digit d = if ltb d 10 then d + b'0' else d + 87

unfoldable pub hex : Bytes → Text
unfolding hex_digit
hex [] = []
hex (b ∷ bs) = hex_digit (b / 16) ∷ hex_digit (b % 16) ∷ hex bs

hex_digit-injective : (c d : ℕ) → c < 16 → d < 16 → hex_digit c ≡ hex_digit d → c ≡ d
unfolding hex_digit
hex_digit-injective c d hc hd e = ground arith

-- Two byte strings with one hex text are one.
pub hex-injective : (xs ys : Bytes) → IsBytes xs → IsBytes ys → hex xs ≡ hex ys → xs ≡ ys
unfolding hex
hex-injective [] [] hx hy e = refl
hex-injective [] (y ∷ ys) hx hy e = cc
hex-injective (x ∷ xs) [] hx hy e = cc
hex-injective (x ∷ xs) (y ∷ ys) hx hy e = ground (
  arith,
  hex-injective xs ys hx.1 hy.1,
  hex_digit-injective (x / 16) (y / 16) (omega arith) (omega arith),
  hex_digit-injective (x % 16) (y % 16) (omega arith) (omega arith),
)

pub hex-ne_nil : (xs : Bytes) → xs ≢ [] → hex xs ≢ []
unfolding hex
hex-ne_nil [] h = λ e. h refl
hex-ne_nil (x ∷ xs) h = λ e. cc
