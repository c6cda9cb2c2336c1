-- ===== src/Protocol/Padding/Laws.antt =====
-- What padding adds, and that stripping takes off just that.
use bit_chat_pi.Prelude.{
  List, Option-cases, [], append-nil, arith, drop, drop-append, get_elem?, get_elem?-append,
  if◌then◌else◌, inl, inr, leb, length, length-append, length-replicate, list_beq, list_beq_iff,
  ltb, refl, replicate, some, subst, suc, sym, take-append, take-append-drop, zero, ℕ, ◌&&◌, ◌++◌,
  ◌+◌, ◌-◌, ◌<◌, ◌==◌, ◌||◌, ◌∷◌, ◌≡◌, ◌≢◌, ◌≤◌, ◌⊎◌,
}
use bit_chat_pi.Bytes.{Bytes}
use bit_chat_pi.Protocol.Constants.{padding_block_sizes}
use bit_chat_pi.Protocol.Padding.{pad, pad_to, strip, unpad}

-- How many bytes the loop over the blocks adds to `n` bytes.
unfoldable pub pad_count : List ℕ → ℕ → ℕ
pad_count [] n = 0
pad_count (block ∷ blocks) n =
    if n == block
    then 0
    else if ltb n block && leb (block - n) 255
    then block - n
    else pad_count blocks n

pad_to-count :
    (blocks : List ℕ) (xs : Bytes)
    → pad_to blocks xs
      ≡ xs ++ replicate (pad_count blocks (length xs)) (pad_count blocks (length xs))
unfolding pad_to pad_count
pad_to-count [] xs = sym (append-nil xs)
pad_to-count (block ∷ blocks) xs = ground (arith, pad_to-count blocks xs, append-nil xs)

abbrev pub padding : Bytes → ℕ
padding xs = pad_count padding_block_sizes (length xs)

-- `pad` keeps its input and appends `padding` copies of the byte `padding`.
pub pad-padding : (xs : Bytes) → pad xs ≡ xs ++ replicate (padding xs) (padding xs)
unfolding pad
pad-padding xs = pad_to-count padding_block_sizes xs

pub padding-le : (xs : Bytes) → padding xs ≤ 255
unfolding pad_count
padding-le xs = ground arith

replicate_last : (n b : ℕ) → get_elem? (replicate (suc n) b) n ≡ some b
replicate_last zero b = refl
replicate_last (suc n) b = replicate_last n b

strip_padding : (xs : Bytes) (k : ℕ) → strip (xs ++ replicate (suc k) (suc k)) (suc k) ≡ xs
unfolding strip
strip_padding xs k =
    let tail : Bytes = replicate (suc k) (suc k) in
    ground (
      arith,
      length-append xs tail,
      length-replicate (suc k) (suc k),
      take-append (length (xs ++ tail) - suc k) xs tail,
      drop-append (length (xs ++ tail) - suc k) xs tail,
      list_beq_iff tail tail,
    )

unpad_padding : (xs : Bytes) (k : ℕ) → unpad (xs ++ replicate (suc k) (suc k)) ≡ xs
unfolding unpad
unpad_padding xs k =
    let tail : Bytes = replicate (suc k) (suc k) in
    ground (
      arith,
      length-append xs tail,
      length-replicate (suc k) (suc k),
      get_elem?-append xs tail (length (xs ++ tail) - 1) k,
      replicate_last k (suc k),
      strip_padding xs k,
    )

unpad_count : (xs : Bytes) (k : ℕ) → k ≢ 0 → unpad (xs ++ replicate k k) ≡ xs
unpad_count xs zero h = absurd (h refl)
unpad_count xs (suc k) h = unpad_padding xs k

-- The sizes below a block by less than 256.
abbrev pub IsPadded : ℕ → Type 0
IsPadded n =
    (0 < n) × (n < 256) ⊎ (256 < n) × (n < 512) ⊎ (769 ≤ n) × (n < 1024) ⊎ (1793 ≤ n) × (n < 2048)

abbrev pub IsBlock : ℕ → Type 0
IsBlock n = (n ≡ 256) ⊎ (n ≡ 512) ⊎ (n ≡ 1024) ⊎ (n ≡ 2048)

padded_count :
    (n : ℕ)
    → IsPadded n
    → (pad_count padding_block_sizes n ≢ 0) × IsBlock (n + pad_count padding_block_sizes n)
unfolding pad_count
padded_count n h = ground arith

-- A size below a block by less than 256 is padded to that block, and stripping gives the input back.
pub unpad-pad :
    (xs : Bytes) → IsPadded (length xs) → (unpad (pad xs) ≡ xs) × IsBlock (length (pad xs))
unpad-pad xs h =
    let k = padding xs in
    let (some_padding, block) = padded_count (length xs) h in
    rw pad-padding (
      unpad_count xs k some_padding,
      subst IsBlock (omega (arith, length-append xs (replicate k k), length-replicate k k)) block,
    )

-- How many bytes `strip` takes off.
strip_count : Bytes → ℕ → ℕ
strip_count xs p =
    if p == 0 || ltb (length xs) p
    then 0
    else if list_beq (drop (length xs - p) xs) (replicate p p)
    then p
    else 0

strip_shape :
    (xs : Bytes) (p : ℕ) → xs ≡ strip xs p ++ replicate (strip_count xs p) (strip_count xs p)
unfolding strip strip_count
strip_shape xs p = ground (
  arith,
  append-nil xs,
  list_beq_iff (drop (length xs - p) xs) (replicate p p),
  take-append-drop (length xs - p) xs,
)

-- On any input `unpad` takes off PKCS#7 padding and nothing else: `k` bytes that all equal `k`.
pub unpad_shape : (xs : Bytes) → (k : ℕ) × (xs ≡ unpad xs ++ replicate k k)
unfolding unpad
unpad_shape xs = elim (Option-cases (get_elem? xs (length xs - 1))) [
  | inl e ↦ (0, rw (e, unpad) (sym (append-nil xs)))
  | inr (p, e) ↦ rw (e, unpad) (strip_count xs p, strip_shape xs p)
]
