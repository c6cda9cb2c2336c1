-- ===== src/Protocol/Padding.antt =====
-- `_pad` and `_unpad` of server/bitchatd/protocol/codec.py: PKCS#7 padding to a block size.
pub mod Laws
use bit_chat_pi.Prelude.{
  List, [], drop, get_elem?, if◌then◌else◌, leb, length, list_beq, ltb, none, replicate, some, take,
  ℕ, ◌&&◌, ◌++◌, ◌-◌, ◌==◌, ◌||◌, ◌∷◌,
}
use bit_chat_pi.Bytes.{Bytes}
use bit_chat_pi.Protocol.Constants.{padding_block_sizes}

-- The loop over the block sizes that are left.
pub pad_to : List ℕ → Bytes → Bytes
pad_to [] xs = xs
pad_to (block ∷ blocks) xs =
    let n = length xs in
    let pad_len = block - n in
    if n == block
    then xs
    else if ltb n block && leb pad_len 255
    then xs ++ replicate pad_len pad_len
    else pad_to blocks xs

unfoldable pub pad : Bytes → Bytes
unfolding pad_to
pad xs = pad_to padding_block_sizes xs

-- `pad_len` is the last byte; it is kept unless the last `pad_len` bytes all equal it.
pub strip : Bytes → ℕ → Bytes
strip xs pad_len =
    let n = length xs in
    if pad_len == 0 || ltb n pad_len
    then xs
    else if list_beq (drop (n - pad_len) xs) (replicate pad_len pad_len)
    then take (n - pad_len) xs
    else xs

unfoldable pub unpad : Bytes → Bytes
unfolding strip
unpad xs = elim (get_elem? xs (length xs - 1)) [ none ↦ xs | some pad_len ↦ strip xs pad_len ]
