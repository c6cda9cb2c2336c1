-- ===== src/Messages/Flags.antt =====
-- The bits of the first byte that are set are those that are read.
use bit_chat_pi.Messages.{BitchatMessage, is_given}
use bit_chat_pi.Prelude.{Bool, arith, ℕ, ◌≡◌}
use bit_chat_pi.Protocol.Codec.Decode.{has_flag}
use bit_chat_pi.Messages.Encode.{flags_of, message_flags}
use bit_chat_pi.Messages.MsgFlags.{
  has_channel, has_mentions, has_original_sender, has_recipient_nick, has_sender_peer_id,
  is_encrypted, is_private, is_relay,
}

module _ (r p s n i m c e : Bool) where
  flags-relay : has_flag (flags_of r p s n i m c e) is_relay ≡ r
  unfolding flags_of
  flags-relay = ground arith

  flags-private : has_flag (flags_of r p s n i m c e) is_private ≡ p
  unfolding flags_of
  flags-private = ground arith

  flags-sender : has_flag (flags_of r p s n i m c e) has_original_sender ≡ s
  unfolding flags_of
  flags-sender = ground arith

  flags-nick : has_flag (flags_of r p s n i m c e) has_recipient_nick ≡ n
  unfolding flags_of
  flags-nick = ground arith

  flags-peer : has_flag (flags_of r p s n i m c e) has_sender_peer_id ≡ i
  unfolding flags_of
  flags-peer = ground arith

  flags-mentions : has_flag (flags_of r p s n i m c e) has_mentions ≡ m
  unfolding flags_of
  flags-mentions = ground arith

  flags-channel : has_flag (flags_of r p s n i m c e) has_channel ≡ c
  unfolding flags_of
  flags-channel = ground arith

  flags-encrypted : has_flag (flags_of r p s n i m c e) is_encrypted ≡ e
  unfolding flags_of
  flags-encrypted = ground arith

-- What each bit of a first byte says of its message.
pub record IsFlags (msg : BitchatMessage) (flags : ℕ) : Type 0 where
  pub relay : has_flag flags is_relay ≡ msg.is_relay
  pub private : has_flag flags is_private ≡ msg.is_private
  pub sender : has_flag flags has_original_sender ≡ is_given msg.original_sender
  pub nick : has_flag flags has_recipient_nick ≡ is_given msg.recipient_nickname
  pub peer : has_flag flags has_sender_peer_id ≡ is_given msg.sender_peer_id
  pub mentions : has_flag flags has_mentions ≡ is_given msg.mentions
  pub channel : has_flag flags has_channel ≡ is_given msg.channel
  pub encrypted : has_flag flags is_encrypted ≡ msg.is_encrypted

module _ (msg : BitchatMessage) where
  pub message_flags-IsFlags : IsFlags msg (message_flags msg)
  message_flags-IsFlags = record {
    relay =
        flags-relay msg.is_relay msg.is_private (is_given msg.original_sender)
          (is_given msg.recipient_nickname) (is_given msg.sender_peer_id) (is_given msg.mentions)
          (is_given msg.channel) msg.is_encrypted;
    private =
        flags-private msg.is_relay msg.is_private (is_given msg.original_sender)
          (is_given msg.recipient_nickname) (is_given msg.sender_peer_id) (is_given msg.mentions)
          (is_given msg.channel) msg.is_encrypted;
    sender =
        flags-sender msg.is_relay msg.is_private (is_given msg.original_sender)
          (is_given msg.recipient_nickname) (is_given msg.sender_peer_id) (is_given msg.mentions)
          (is_given msg.channel) msg.is_encrypted;
    nick =
        flags-nick msg.is_relay msg.is_private (is_given msg.original_sender)
          (is_given msg.recipient_nickname) (is_given msg.sender_peer_id) (is_given msg.mentions)
          (is_given msg.channel) msg.is_encrypted;
    peer =
        flags-peer msg.is_relay msg.is_private (is_given msg.original_sender)
          (is_given msg.recipient_nickname) (is_given msg.sender_peer_id) (is_given msg.mentions)
          (is_given msg.channel) msg.is_encrypted;
    mentions =
        flags-mentions msg.is_relay msg.is_private (is_given msg.original_sender)
          (is_given msg.recipient_nickname) (is_given msg.sender_peer_id) (is_given msg.mentions)
          (is_given msg.channel) msg.is_encrypted;
    channel =
        flags-channel msg.is_relay msg.is_private (is_given msg.original_sender)
          (is_given msg.recipient_nickname) (is_given msg.sender_peer_id) (is_given msg.mentions)
          (is_given msg.channel) msg.is_encrypted;
    encrypted =
        flags-encrypted msg.is_relay msg.is_private (is_given msg.original_sender)
          (is_given msg.recipient_nickname) (is_given msg.sender_peer_id) (is_given msg.mentions)
          (is_given msg.channel) msg.is_encrypted;
  }
