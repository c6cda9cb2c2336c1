-- ===== src/Bytes/Signed.antt =====
-- `struct`'s big-endian signed integers, in two's complement.
use bit_chat_pi.Bytes.{Bytes, from_be, from_be-to_be, length-to_be, to_be}
use bit_chat_pi.Prelude.{
  Option, ap, arith, if◌then◌else◌, length, le→ltb, ltb, lt→ltb, refl, require, some, ℕ, ◌-◌, ◌<◌,
  ◌>>=◌, ◌^◌, ◌≡◌,
}

pub data ℤ : Type 0 where
  pos : ℕ → ℤ
  negsuc : ℕ → ℤ

-- `struct.pack(">q", n)`; `none` is struct.error.
unfoldable pub pack_signed : ℤ → Option Bytes
pack_signed (pos n) = do _ ← require (ltb n (2 ^ 63)); some (to_be 8 n)
pack_signed (negsuc n) = do _ ← require (ltb n (2 ^ 63)); some (to_be 8 (2 ^ 64 - 1 - n))

-- `struct.unpack(">q", data)`
unfoldable pub unpack_signed : Bytes → ℤ
unpack_signed bytes =
    let n = from_be bytes in if ltb n (2 ^ 63) then pos n else negsuc (2 ^ 64 - 1 - n)

-- What eight bytes hold.
abbrev pub IsInt64 : ℤ → Type 0
IsInt64 (pos n) = n < 2 ^ 63
IsInt64 (negsuc n) = n < 2 ^ 63

pub unpack_signed-pack_signed :
    (n : ℤ)
    → IsInt64 n
    → (b : Bytes) × (pack_signed n ≡ some b) × (length b ≡ 8) × (unpack_signed b ≡ n)
unfolding pack_signed unpack_signed
unpack_signed-pack_signed (pos n) h = (
  to_be 8 n,
  rw (lt→ltb n (2 ^ 63) h) refl,
  length-to_be 8 n,
  rw (from_be-to_be 8 n (omega arith), lt→ltb n (2 ^ 63) h) refl,
)
unpack_signed-pack_signed (negsuc n) h =
    let m = 2 ^ 64 - 1 - n in
    let back : 2 ^ 64 - 1 - m ≡ n = omega arith in
    (
      to_be 8 m,
      rw (lt→ltb n (2 ^ 63) h) refl,
      length-to_be 8 m,
      rw (from_be-to_be 8 m (omega arith), le→ltb m (2 ^ 63) (omega arith)) (ap negsuc back),
    )
