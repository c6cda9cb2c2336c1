-- ===== src/Protocol/Packet.antt =====
-- server/bitchatd/protocol/packet.py: a packet as the codec and the mesh layer hand it on.
use bit_chat_pi.Prelude.{Bool, List, Option, [], false, list_beq, none, some, true, ℕ, ◌∷◌}
use bit_chat_pi.Bytes.{Bytes}
use bit_chat_pi.Protocol.Constants.{broadcast_id, message_ttl_hops}

pub record Packet : Type 0 where
  pub type : ℕ
  pub sender_id : Bytes
  pub payload : Bytes
  pub version : ℕ
  pub ttl : ℕ
  pub timestamp : ℕ
  pub flags : ℕ
  pub recipient_id : Option Bytes
  pub signature : Option Bytes
  pub route : Option (List Bytes)

-- The dataclass defaults: version 1, seven hops, no stamp, no optional part.
abbrev pub new_packet : ℕ → Bytes → Bytes → Packet
new_packet type sender payload = record {
  type = type;
  sender_id = sender;
  payload = payload;
  version = 1;
  ttl = message_ttl_hops;
  timestamp = 0;
  flags = 0;
  recipient_id = none;
  signature = none;
  route = none;
}

unfoldable pub is_broadcast : Packet → Bool
is_broadcast p = elim p.recipient_id [ none ↦ true | some r ↦ list_beq r broadcast_id ]

abbrev pub with_ttl : Packet → ℕ → Packet
with_ttl p ttl = record p { ttl = ttl }

-- `bool(packet.route)`: `None` and the empty list are false.
abbrev pub has_hops : Option (List Bytes) → Bool
has_hops none = false
has_hops (some []) = false
has_hops (some (hop ∷ hops)) = true
