-- ===== src/Protocol/Announce.antt =====
-- server/bitchatd/protocol/announce.py: the payload of an ANNOUNCE, a list of tagged values.
pub mod RoundTrip
use bit_chat_pi.Prelude.{
  Option, [], drop, false, if◌then◌else◌, leb, length, ltb, none, require, some, suc, take, true,
  zero, ℕ, ◌++◌, ◌==◌, ◌>>=◌, ◌∷◌,
}
use bit_chat_pi.Bytes.{Bytes}
use bit_chat_pi.Text.{Text}
use bit_chat_pi.Text.Utf8.{utf8_decode_replace, utf8_encode}

abbrev pub tag_nickname : ℕ
tag_nickname = 0x01

abbrev pub tag_noise_pub : ℕ
tag_noise_pub = 0x02

abbrev pub tag_sign_pub : ℕ
tag_sign_pub = 0x03

pub record AnnouncePayload : Type 0 where
  pub nickname : Text
  pub noise_pub : Bytes
  pub sign_pub : Bytes

-- `bytes([tag, len(val)]) + val` raises ValueError for a value of more than 255 bytes.
unfoldable pub encode_tlv : ℕ → Bytes → Option Bytes
encode_tlv tag val = do _ ← require (ltb (length val) 256); some (tag ∷ length val ∷ val)

unfoldable pub encode_announce : Text → Bytes → Bytes → Option Bytes
unfolding encode_tlv
encode_announce nickname noise_pub sign_pub = do
  nick ← utf8_encode nickname
  first ← encode_tlv tag_nickname (take 15 nick)
  second ← encode_tlv tag_noise_pub noise_pub
  third ← encode_tlv tag_sign_pub sign_pub
  some (first ++ (second ++ third))

-- The variables of the loop of `decode_announce`.
pub record AnnounceFields : Type 0 where
  pub nickname : Option Text
  pub noise_pub : Option Bytes
  pub sign_pub : Option Bytes

abbrev pub no_fields : AnnounceFields
no_fields = record { nickname = none; noise_pub = none; sign_pub = none }

unfoldable pub store : ℕ → Bytes → AnnounceFields → AnnounceFields
store tag val a =
    if tag == tag_nickname
    then record a { nickname = some (utf8_decode_replace val) }
    else if tag == tag_noise_pub
    then record a { noise_pub = some val }
    else if tag == tag_sign_pub
    then record a { sign_pub = some val }
    else a

-- The loop, over what is left from the offset on: it ends where fewer than two bytes are left. Each
-- round takes two bytes at least, so the length of the data is enough fuel.
unfoldable pub decode_fields : ℕ → Bytes → AnnounceFields → Option AnnounceFields
decode_fields (suc fuel) (tag ∷ ln ∷ rest) a = elim (leb ln (length rest)) [
  | false ↦ none
  | true ↦ decode_fields fuel (drop ln rest) (store tag (take ln rest) a)
]
decode_fields zero rest a = some a
decode_fields (suc fuel) [] a = some a
decode_fields (suc fuel) (tag ∷ []) a = some a

abbrev pub completed : AnnounceFields → Option AnnouncePayload
completed a = do
  nickname ← a.nickname
  noise_pub ← a.noise_pub
  sign_pub ← a.sign_pub
  some (record { nickname = nickname; noise_pub = noise_pub; sign_pub = sign_pub })

unfoldable pub decode_announce : Bytes → Option AnnouncePayload
unfolding decode_fields
decode_announce bytes = do a ← decode_fields (length bytes) bytes no_fields; completed a
