-- ===== src/Messages.antt =====
-- server/bitchatd/messages/message.py: a message of a chat.
pub mod MsgFlags
pub mod Encode
pub mod Decode
pub mod Fields
pub mod Content
pub mod Flags
pub mod RoundTrip
use bit_chat_pi.Bytes.{Bytes}
use bit_chat_pi.Bytes.Signed.{ℤ}
use bit_chat_pi.Text.{Text}
use bit_chat_pi.Prelude.{Bool, List, Option, [], false, none, some, true, ◌∷◌}

pub record BitchatMessage : Type 0 where
  pub sender : Text
  pub content : Text
  pub id : Text
  pub timestamp : ℤ
  pub is_relay : Bool
  pub is_private : Bool
  pub original_sender : Option Text
  pub recipient_nickname : Option Text
  pub sender_peer_id : Option Text
  pub mentions : Option (List Text)
  pub channel : Option Text
  pub encrypted_content : Option Bytes
  pub is_encrypted : Bool

-- `bool` of an optional list, text or byte string: `None` and the empty one are false.
abbrev pub is_given {ℓ} : {A : Type ℓ} → Option (List A) → Bool
is_given none = false
is_given (some []) = false
is_given (some (x ∷ xs)) = true
