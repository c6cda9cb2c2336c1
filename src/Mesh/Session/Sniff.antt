-- ===== src/Mesh/Session/Sniff.antt =====
-- The kinds of files by their first bytes: `_FILE_MAGIC` and `_sniff_file` of
-- server/bitchatd/mesh/session_manager.py.
use bit_chat_pi.Prelude.{
  Bool, List, Option, [], drop, false, if◌then◌else◌, leb, length, none, not, or_else, some, suc,
  take, true, zero, ℕ, ◌&&◌, ◌++◌, ◌=?◌, ◌||◌, ◌∷◌, list_eq,
}
use bit_chat_pi.Bytes.{Bytes, slice}
use bit_chat_pi.Text.{Text, text}

-- First bytes, extension and media type.
abbrev pub file_magic : List (Bytes × Text × Text)
file_magic =
    (0xff ∷ 0xd8 ∷ 0xff ∷ [], text ".jpg", text "image/jpeg")
    ∷ (0x89 ∷ (text "PNG" ++ 0x0d ∷ 0x0a ∷ 0x1a ∷ 0x0a ∷ []), text ".png", text "image/png")
    ∷ (text "GIF87a", text ".gif", text "image/gif")
    ∷ (text "GIF89a", text ".gif", text "image/gif")
    ∷ (text "RIFF", [], [])
    ∷ (0 ∷ 0 ∷ 0 ∷ 0x0c ∷ text "ftyp", text ".m4a", text "audio/mp4")
    ∷ (0 ∷ 0 ∷ 0 ∷ 0x18 ∷ text "ftyp", text ".m4a", text "audio/mp4")
    ∷ (0 ∷ 0 ∷ 0 ∷ 0x1c ∷ text "ftyp", text ".m4a", text "audio/mp4")
    ∷ (0 ∷ 0 ∷ 0 ∷ 0x20 ∷ text "ftyp", text ".m4a", text "audio/mp4")
    ∷ (0 ∷ 0 ∷ 0 ∷ 0x24 ∷ text "ftyp", text ".mp4", text "video/mp4")
    ∷ (0 ∷ 0 ∷ 0 ∷ 0x28 ∷ text "ftyp", text ".mp4", text "video/mp4")
    ∷ (text "ID3", text ".mp3", text "audio/mpeg")
    ∷ (0xff ∷ 0xfb ∷ [], text ".mp3", text "audio/mpeg")
    ∷ (0xff ∷ 0xf2 ∷ [], text ".mp3", text "audio/mpeg")
    ∷ (0xff ∷ 0xf3 ∷ [], text ".mp3", text "audio/mpeg")
    ∷ (0xff ∷ 0xf1 ∷ [], text ".aac", text "audio/aac")
    ∷ (0xff ∷ 0xf9 ∷ [], text ".aac", text "audio/aac")
    ∷ (text "OggS", text ".ogg", text "audio/ogg")
    ∷ (text "fLaC", text ".flac", text "audio/flac")
    ∷ (0x1a ∷ 0x45 ∷ 0xdf ∷ 0xa3 ∷ [], text ".webm", text "video/webm")
    ∷ []

abbrev pub unknown_mime : Text
unknown_mime = text "application/octet-stream"

abbrev pub one_of : Bytes → List Bytes → Bool
one_of xs [] = false
one_of xs (y ∷ ys) = xs =? y || one_of xs ys

-- A RIFF file by the name of its form at offset 8; any other form is left to the rest of the table.
unfoldable pub sniff_riff : Bytes → Option (Text × Text)
sniff_riff bytes =
    if leb 12 (length bytes) && slice bytes 8 12 =? text "WEBP"
    then some (text ".webp", text "image/webp")
    else if leb 12 (length bytes) && slice bytes 8 12 =? text "WAVE"
    then some (text ".wav", text "audio/wav")
    else none

-- The answer of one entry of the table, if it fits.
unfoldable pub sniff_entry : Bytes × Text × Text → Bytes → Option (Text × Text)
unfolding sniff_riff
sniff_entry (magic, ext, mime) bytes =
    if take (length magic) bytes =? magic
    then (if magic =? text "RIFF" then sniff_riff bytes else some (ext, mime))
    else none

unfoldable pub sniff_table : List (Bytes × Text × Text) → Bytes → Option (Text × Text)
unfolding sniff_entry
sniff_table [] bytes = none
sniff_table (entry ∷ table) bytes = or_else (sniff_entry entry bytes) (sniff_table table bytes)

-- An `ftyp` box by its brand.
unfoldable pub sniff_brand : Bytes → Text × Text
sniff_brand bytes =
    let brand = slice bytes 8 12 in
    if leb 12 (length bytes) && slice bytes 4 8 =? text "ftyp"
    then (if one_of brand (text "M4A " ∷ text "M4B " ∷ text "M4P " ∷ text "aac " ∷ text "AACP" ∷ [])
        then (text ".m4a", text "audio/mp4")
        else if one_of brand (text "M4V " ∷ text "f4v " ∷ [])
        then (text ".m4v", text "video/mp4")
        else (text ".mp4", text "video/mp4"))
    else (text ".bin", unknown_mime)

unfoldable pub sniff_file : Bytes → Text × Text
unfolding sniff_table sniff_brand
sniff_file bytes = elim (sniff_table file_magic bytes) [
  | some answer ↦ answer
  | none ↦ sniff_brand bytes
]

abbrev pub is_known : Bytes → Bool
is_known bytes = not ((sniff_file bytes).1 =? unknown_mime)

-- `for off in range(n)`: what follows the first offset at which a known file begins.
unfoldable pub find_file : ℕ → Bytes → Option Bytes
unfolding sniff_file
find_file zero bytes = none
find_file (suc n) bytes = elim (is_known bytes) [
  | true ↦ some bytes
  | false ↦ find_file n (drop 1 bytes)
]
