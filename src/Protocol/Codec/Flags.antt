-- ===== src/Protocol/Codec/Flags.antt =====
-- The four bits that `encode` sets are the four bits that `decode` tests.
use bit_chat_pi.Prelude.{Bool, arith, ◌<◌, ◌≡◌}
use bit_chat_pi.Protocol.Constants.{has_recipient, has_route, has_signature, is_compressed}
use bit_chat_pi.Protocol.Codec.Encode.{encode_flags}
use bit_chat_pi.Protocol.Codec.Decode.{has_flag}

module _ (r s c h : Bool) where
  pub flags-recipient : has_flag (encode_flags r s c h) has_recipient ≡ r
  unfolding encode_flags
  flags-recipient = ground arith

  pub flags-signature : has_flag (encode_flags r s c h) has_signature ≡ s
  unfolding encode_flags
  flags-signature = ground arith

  pub flags-compressed : has_flag (encode_flags r s c h) is_compressed ≡ c
  unfolding encode_flags
  flags-compressed = ground arith

  pub flags-route : has_flag (encode_flags r s c h) has_route ≡ h
  unfolding encode_flags
  flags-route = ground arith

  pub flags-IsByte : encode_flags r s c h < 256
  unfolding encode_flags
  flags-IsByte = ground arith
