-- ===== src/Zlib.antt =====
-- The C library zlib, which the program calls and does not contain: a parameter. `decompress` takes
-- the `wbits` argument of the call; `none` is `zlib.error`.
use bit_chat_pi.Prelude.{Option, length, some, ◌*◌, ◌≡◌, ◌≤◌}
use bit_chat_pi.Bytes.{Bytes}

-- The formats that `wbits` = 15, -15 and 47 select: zlib, raw deflate, zlib or gzip by the header.
pub data WindowBits : Type 0 where
  zlib_format raw_deflate any_header : WindowBits

pub record Zlib : Type 0 where
  pub compress : Bytes → Bytes
  pub decompress : WindowBits → Bytes → Option Bytes

-- What the documentation of zlib states: its own output is read back, and no output stands for
-- more than 1032 times its size.
pub record ZlibLaws (z : Zlib) : Type 0 where
  pub decompress-compress : (xs : Bytes) → z.decompress zlib_format (z.compress xs) ≡ some xs
  pub ratio : (xs : Bytes) → length xs ≤ 1032 * length (z.compress xs)
