-- ===== src/Tests/Zlibs.antt =====
-- A compressor for the tests: a run of up to 256 equal bytes takes three bytes, anything else one
-- byte more than it had.
use bit_chat_pi.Prelude.{
  Bool, Option, [], arith, if◌then◌else◌, length, list_beq, list_beq_iff, ltb, none, refl,
  replicate, some, suc, zero, ℕ, ◌&&◌, ◌*◌, ◌∷◌, ◌≡◌, ◌≤◌,
}
use bit_chat_pi.Bytes.{Bytes}
use bit_chat_pi.Zlib.{WindowBits, Zlib, ZlibLaws, any_header, raw_deflate, zlib_format}
use bit_chat_pi.Protocol.Codec.Payload.{NoEmpty}

is_run : ℕ → Bytes → Bool
is_run x xs = list_beq xs (replicate (length xs) x) && ltb (length xs) 256

unfoldable pub run_compress : Bytes → Bytes
unfolding is_run
run_compress [] = 0 ∷ []
run_compress (x ∷ xs) = if is_run x xs then 1 ∷ length xs ∷ x ∷ [] else 0 ∷ x ∷ xs

unfoldable pub run_decompress : WindowBits → Bytes → Option Bytes
run_decompress zlib_format (zero ∷ xs) = some xs
run_decompress zlib_format (suc zero ∷ n ∷ x ∷ []) = some (x ∷ replicate n x)
run_decompress _ _ = none

abbrev pub runs : Zlib
runs = record { compress = run_compress; decompress = run_decompress }

run_round_trip : (xs : Bytes) → run_decompress zlib_format (run_compress xs) ≡ some xs
run_round_trip [] = unfold run_compress run_decompress in refl
run_round_trip (x ∷ xs) =
    unfold run_compress run_decompress is_run in
    ground (arith, list_beq_iff xs (replicate (length xs) x))

run_ratio : (xs : Bytes) → length xs ≤ 1032 * length (run_compress xs)
unfolding run_compress
run_ratio [] = omega arith
run_ratio (x ∷ xs) = ground arith

pub runs-ZlibLaws : ZlibLaws runs
runs-ZlibLaws = record { decompress-compress = run_round_trip; ratio = run_ratio }

pub runs-NoEmpty : NoEmpty runs
unfolding run_decompress
runs-NoEmpty zlib_format = refl
runs-NoEmpty raw_deflate = refl
runs-NoEmpty any_header = refl

-- A compressor that stores its input.
abbrev pub storing : Zlib
storing = record { compress = λ xs. xs; decompress = λ w xs. some xs }

pub storing-ZlibLaws : ZlibLaws storing
storing-ZlibLaws = record { decompress-compress = λ xs. refl; ratio = λ xs. omega arith }
