-- ===== src/Mesh/Relay/Cache.antt =====
-- The deduplication cache of relay_engine.py, oldest entry first.
use bit_chat_pi.Prelude.{
  Bool, Option, [], false, if◌then◌else◌, length, ltb, none, some, true, ℕ, ◌++◌, ◌-◌, ◌>>=◌, ◌∷◌,
  list_eq,
}
use bit_chat_pi.Bytes.{Bytes, pack}
use bit_chat_pi.Dict.{Dict, get, remove}
use bit_chat_pi.Protocol.Constants.{max_processed_messages, message_timeout_ms}
use bit_chat_pi.Protocol.Packet.{Packet}

abbrev pub Seen : Type 0
Seen = Dict Bytes ℕ

-- `_packet_key`; `none` is the OverflowError of `to_bytes`.
unfoldable pub packet_key : Packet → Option Bytes
packet_key p = do
  type ← pack 1 p.type
  timestamp ← pack 8 p.timestamp
  some (p.sender_id ++ (type ++ timestamp))

-- Whether an entry made at `ts` still counts at `now`. A clock that has gone back gives a negative
-- age, which is below the limit, as the difference that stops at 0 is.
abbrev pub is_recent : ℕ → ℕ → Bool
is_recent ts now = ltb (now - ts) message_timeout_ms

-- `_is_seen` drops an entry that has expired.
unfoldable pub is_seen : ℕ → Bytes → Seen → Seen × Bool
is_seen now key seen = elim (get key seen) [
  | none ↦ (seen, false)
  | some ts ↦ if is_recent ts now then (seen, true) else (remove key seen, false)
]

-- The `while` loop that drops the oldest entries.
unfoldable pub evict : ℕ → Seen → Seen
evict capacity [] = []
evict capacity (x ∷ seen) =
    let rest = evict capacity seen in if ltb capacity (length (x ∷ seen)) then rest else x ∷ seen

-- `_mark_seen`: the entry goes to the end.
unfoldable pub mark_seen : ℕ → Bytes → Seen → Seen
unfolding evict
mark_seen now key seen = evict max_processed_messages (remove key seen ++ ((key, now) ∷ []))
