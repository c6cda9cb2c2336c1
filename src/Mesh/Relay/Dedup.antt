-- ===== src/Mesh/Relay/Dedup.antt =====
-- Every call keeps the cache within its bound, with distinct keys.
use bit_chat_pi.Prelude.{
  Bool-cases, List, Option, Option-cases, [], arith, drop, inl, inr, length, none, refl, some, sym,
  ℕ, ◌++◌, ◌-◌, ◌==◌, ◌=?◌, ◌||◌, ◌∙◌, ◌∷◌, ◌≡◌, ◌≤◌, list_eq,
}
use bit_chat_pi.Bytes.{Bytes}
use bit_chat_pi.Dict.{remove}
use bit_chat_pi.Mesh.Relay.Cache.{Seen, is_seen, mark_seen, packet_key}
use bit_chat_pi.Dict.Keys.{IsDict, get-remove_self, remove-IsDict}
use bit_chat_pi.Dict.Laws.{length-remove}
use bit_chat_pi.Text.{Text}
use bit_chat_pi.Protocol.Packet.{Packet, with_ttl}
use bit_chat_pi.Protocol.Constants.{max_processed_messages}
use bit_chat_pi.Mesh.Relay.Engine.{Action, Engine, World, handle_relay, relay_new}
use bit_chat_pi.Text.Hex.{hex}
use bit_chat_pi.Mesh.Relay.Order.{append-IsDict, evict-IsDict, length-evict-le}

pub record IsValid (e : Engine) : Type 0 where
  pub distinct : IsDict e.seen
  pub bounded : length e.seen ≤ max_processed_messages

pub mark_seen-IsDict :
    (now : ℕ) (j : Bytes) (seen : Seen) → IsDict seen → IsDict (mark_seen now j seen)
unfolding mark_seen
mark_seen-IsDict now j seen h =
    evict-IsDict max_processed_messages (remove j seen ++ ((j, now) ∷ []))
      (append-IsDict j now (remove j seen) (get-remove_self j seen h) (remove-IsDict j seen h))

pub is_seen-IsDict :
    (now : ℕ) (j : Bytes) (seen : Seen) → IsDict seen → IsDict (is_seen now j seen).0
unfolding is_seen
is_seen-IsDict now j seen h = ground (arith, remove-IsDict j seen h)

length-is_seen-le :
    (now : ℕ) (j : Bytes) (seen : Seen) → length (is_seen now j seen).0 ≤ length seen
unfolding is_seen
length-is_seen-le now j seen = ground (arith, length-remove j seen)

mark_seen-le :
    (now : ℕ) (j : Bytes) (seen : Seen) → length (mark_seen now j seen) ≤ max_processed_messages
unfolding mark_seen
mark_seen-le now j seen = length-evict-le max_processed_messages (remove j seen ++ ((j, now) ∷ []))

relay_new-IsValid :
    (e : Engine) (w : World) (key : Bytes) (p : Packet) (from_peer_id : Text)
    → IsValid e
    → IsValid (relay_new e w key p from_peer_id).0
unfolding relay_new
relay_new-IsValid e w key p from_peer_id v =
    let seen = (is_seen w.check_time key e.seen).0 in
    let kept = is_seen-IsDict w.check_time key e.seen v.distinct in
    ground (
      arith,
      kept,
      mark_seen-IsDict w.mark_time key seen kept,
      length-is_seen-le w.check_time key e.seen,
      mark_seen-le w.mark_time key seen,
    )

abbrev pub engine_after : Engine → Option (Engine × List Action) → Engine
engine_after e none = e
engine_after e (some (e', acts)) = e'

pub packet_key-with_ttl : (p : Packet) (n : ℕ) → packet_key (with_ttl p n) ≡ packet_key p
unfolding packet_key
packet_key-with_ttl p n = refl

pub handle_relay_cases {ℓ} :
    (P : Option (Engine × List Action) → Type ℓ) (e : Engine) (w : World) (p : Packet)
    (from_peer_id : Text)
    → P (some (e, []))
    → (packet_key p ≡ none → P none)
    → ((key : Bytes)
        → packet_key p ≡ some key
        → P (some (relay_new e w key (with_ttl p (p.ttl - 1)) from_peer_id)))
    → P (handle_relay e w p from_peer_id)
unfolding handle_relay
handle_relay_cases P e w p from_peer_id dropped raised relayed =
    elim (Bool-cases (from_peer_id =? hex e.my_peer_id || p.ttl == 0)) [
      | inl drop ↦ rw (drop, handle_relay) dropped
      | inr keep ↦ elim (Option-cases (packet_key (with_ttl p (p.ttl - 1)))) [
        | inl e' ↦
            rw (keep, e', handle_relay) (raised (sym (packet_key-with_ttl p (p.ttl - 1)) ∙ e'))
        | inr (key, e') ↦
            rw (keep, e', handle_relay) (relayed key (sym (packet_key-with_ttl p (p.ttl - 1)) ∙ e'))
      ]
    ]

-- Every call keeps the cache at 10,000 entries at most, with distinct keys.
pub handle_relay-IsValid :
    (e : Engine) (w : World) (p : Packet) (from_peer_id : Text)
    → IsValid e
    → IsValid (engine_after e (handle_relay e w p from_peer_id))
handle_relay-IsValid e w p from_peer_id v =
    handle_relay_cases (λ r. IsValid (engine_after e r)) e w p from_peer_id v (λ _. v)
      λ key _. relay_new-IsValid e w key (with_ttl p (p.ttl - 1)) from_peer_id v
