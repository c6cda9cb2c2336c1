-- ===== src/Bytes.antt =====
-- Python's `bytes` as lists of numbers below 256: slices, equality, and `struct`'s big-endian
-- unsigned integers. `pack` fails where `struct.pack` raises `struct.error`.
pub mod Cursor
pub mod Signed
use bit_chat_pi.Prelude.{
  All, All-append, List, Option, [], arith, drop, if◌then◌else◌, length, length-append, ltb, none,
  refl, some, suc, take, zero, ℕ, ◌%◌, ◌*◌, ◌++◌, ◌+◌, ◌-◌, ◌/◌, ◌<◌, ◌^◌, ◌∷◌, ◌≡◌,
}

abbrev pub Bytes : Type 0
Bytes = List ℕ

abbrev pub IsByte : ℕ → Type 0
IsByte b = b < 256

abbrev pub IsBytes : Bytes → Type 0
IsBytes = All IsByte

-- `data[i:j]`
abbrev pub slice : Bytes → ℕ → ℕ → Bytes
slice xs i j = take (j - i) (drop i xs)

-- The `w` lowest base-256 digits of `n`, highest first.
unfoldable pub to_be : ℕ → ℕ → Bytes
to_be zero n = []
to_be (suc w) n = to_be w (n / 256) ++ (n % 256 ∷ [])

unfoldable pub be_value : ℕ → Bytes → ℕ
be_value acc [] = acc
be_value acc (b ∷ bs) = be_value (acc * 256 + b) bs

abbrev pub from_be : Bytes → ℕ
from_be = be_value 0

pub length-to_be : (w n : ℕ) → length (to_be w n) ≡ w
unfolding to_be
length-to_be zero n = refl
length-to_be (suc w) n =
    omega (arith, length-append (to_be w (n / 256)) (n % 256 ∷ []), length-to_be w (n / 256))

pub to_be-IsBytes : (w n : ℕ) → IsBytes (to_be w n)
unfolding to_be
to_be-IsBytes zero n = tt
to_be-IsBytes (suc w) n =
    All-append IsByte (to_be w (n / 256)) (n % 256 ∷ []) (to_be-IsBytes w (n / 256)) (omega arith)

be_value-append :
    (acc : ℕ) (xs : Bytes) (b : ℕ) → be_value acc (xs ++ b ∷ []) ≡ be_value acc xs * 256 + b
unfolding be_value
be_value-append acc [] b = refl
be_value-append acc (x ∷ xs) b = be_value-append (acc * 256 + x) xs b

pub from_be-to_be : (w n : ℕ) → n < 256 ^ w → from_be (to_be w n) ≡ n
unfolding to_be
from_be-to_be zero n h = unfold be_value in omega arith
from_be-to_be (suc w) n h = omega (
  arith,
  be_value-append 0 (to_be w (n / 256)) (n % 256),
  from_be-to_be w (n / 256) (omega arith),
)

-- `struct.pack` of one unsigned integer of `w` bytes.
unfoldable pub pack : ℕ → ℕ → Option Bytes
pack w n = if ltb n (256 ^ w) then some (to_be w n) else none

pub pack_fits : (w n : ℕ) → n < 256 ^ w → pack w n ≡ some (to_be w n)
unfolding pack
pack_fits w n h = ground arith
