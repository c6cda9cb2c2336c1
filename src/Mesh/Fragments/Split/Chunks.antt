-- ===== src/Mesh/Fragments/Split/Chunks.antt =====
-- The chunks of a byte string: what they hold, their sizes and their number.
use bit_chat_pi.Prelude.{
  All, List, [], arith, drop, length, length-drop, length-take, refl, suc, take-append-drop, zero,
  ℕ, ◌++◌, ◌<◌, ◌∷◌, ◌≡◌, ◌≤◌,
}
use bit_chat_pi.Bytes.{Bytes}
use bit_chat_pi.Mesh.Fragments.Split.{chunks, chunks_from}

abbrev pub concat : List Bytes → Bytes
concat [] = []
concat (x ∷ xs) = x ++ concat xs

-- A chunk is not empty, and not longer than `size`.
abbrev pub IsChunk : ℕ → Bytes → Type 0
IsChunk size xs = (0 < length xs) × (length xs ≤ size)

chunks_from-IsChunk :
    (fuel size : ℕ) (xs : Bytes) → 0 < size → All (IsChunk size) (chunks_from fuel size xs)
unfolding chunks_from
chunks_from-IsChunk zero size xs h = tt
chunks_from-IsChunk (suc fuel) size [] h = tt
chunks_from-IsChunk (suc fuel) size (x ∷ xs) h = (
  (omega (arith, length-take size (x ∷ xs)), omega (arith, length-take size (x ∷ xs))),
  chunks_from-IsChunk fuel size (drop size (x ∷ xs)) h,
)

concat-chunks_from :
    (fuel size : ℕ) (xs : Bytes)
    → 0 < size
    → length xs ≤ fuel
    → concat (chunks_from fuel size xs) ≡ xs
unfolding chunks_from
concat-chunks_from zero size [] h enough = refl
concat-chunks_from zero size (x ∷ xs) h enough = absurd (omega arith)
concat-chunks_from (suc fuel) size [] h enough = refl
concat-chunks_from (suc fuel) size (x ∷ xs) h enough =
    rw
      (concat-chunks_from fuel size (drop size (x ∷ xs)) h
        (omega (arith, length-drop size (x ∷ xs))))
      (take-append-drop size (x ∷ xs))

-- The chunks are the data, in pieces of 1 to `size` bytes.
pub concat-chunks :
    (size : ℕ) (xs : Bytes)
    → 0 < size
    → (concat (chunks size xs) ≡ xs) × All (IsChunk size) (chunks size xs)
concat-chunks size xs h = (
  concat-chunks_from (length xs) size xs h (omega arith),
  chunks_from-IsChunk (length xs) size xs h,
)
