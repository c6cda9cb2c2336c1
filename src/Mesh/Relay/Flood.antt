-- ===== src/Mesh/Relay/Flood.antt =====
-- A packet that is new goes to everybody.
use bit_chat_pi.Mesh.Relay.Once.{mark_seen-Kept}
use bit_chat_pi.Mesh.Relay.Dedup.{is_seen-IsDict, packet_key-with_ttl}
use bit_chat_pi.Text.Hex.{hex}
use bit_chat_pi.Dict.Keys.{IsDict}
use bit_chat_pi.Protocol.Constants.{message_timeout_ms}
use bit_chat_pi.Dict.{get}
use bit_chat_pi.Text.{Text}
use bit_chat_pi.Mesh.Relay.Cache.{is_recent, is_seen, mark_seen, packet_key}
use bit_chat_pi.Protocol.Packet.{Packet, with_ttl}
use bit_chat_pi.Bytes.{Bytes}
use bit_chat_pi.Prelude.{
  Option-cases, [], arith, false, inl, inr, none, refl, some, true, ℕ, ◌-◌, ◌<◌, ◌==◌, ◌=?◌, ◌^◌,
  ◌∙◌, ◌∷◌, ◌≡◌, ◌≤◌, ◌⊎◌, list_eq,
}
use bit_chat_pi.Mesh.Relay.Engine.{
  Engine, World, broadcast, forward, forward_to, handle_relay, relay_new, try_broadcast,
}
use bit_chat_pi.Mesh.Relay.Decision.{should_relay, should_relay_surely}

-- The cache does not have the packet, or has it from five minutes ago or earlier.
abbrev pub IsNew : ℕ → Bytes → Engine → Type 0
IsNew now key e = (ts : ℕ) → get key e.seen ≡ some ts → message_timeout_ms ≤ now - ts

is_seen-new :
    (now : ℕ) (key : Bytes) (e : Engine) → IsNew now key e → (is_seen now key e.seen).1 ≡ false
unfolding is_seen
is_seen-new now key e new = elim (Option-cases (get key e.seen)) [
  | inl absent ↦ rw (absent, is_seen) refl
  | inr (ts, there) ↦
      let late : is_recent ts now ≡ false = ground (arith, new ts there) in
      rw (there, late, is_seen) refl
]

-- A packet without a source route that comes from another peer, has a hop left and is new is broadcast, once
-- and with one hop less, and is in the cache after, where it has at least five hops left or the network has at
-- most ten peers; whatever the random number.
pub handle_relay_floods :
    (e : Engine) (w : World) (p : Packet) (from_peer_id : Text) (key : Bytes)
    → IsDict e.seen
    → p.route ≡ none
    → (from_peer_id =? hex e.my_peer_id) ≡ false
    → 0 < p.ttl
    → packet_key p ≡ some key
    → IsNew w.check_time key e
    → w.can_broadcast ≡ true
    → w.roll < 2 ^ 53
    → (5 ≤ p.ttl) ⊎ (w.network_size ≤ 10)
    → (e' : Engine) × (handle_relay e w p from_peer_id
        ≡ some (e', broadcast (with_ttl p (p.ttl - 1)) from_peer_id ∷ []))
      × (get key e'.seen ≡ some w.mark_time)
unfolding handle_relay relay_new forward forward_to try_broadcast mark_seen should_relay
handle_relay_floods e w p from_peer_id key dict direct other hops k new can roll sure =
    let p' = with_ttl p (p.ttl - 1) in
    let seen = (is_seen w.check_time key e.seen).0 in
    let left : (p.ttl == 0) ≡ false = ground arith in
    let k' : packet_key p' ≡ some key = packet_key-with_ttl p (p.ttl - 1) ∙ k in
    let sure' : (4 ≤ p.ttl - 1) ⊎ (w.network_size ≤ 10) = ground arith in
    let relayed = should_relay_surely w.roll w.network_size p' roll sure' in
    let kept = mark_seen-Kept w.mark_time key seen (is_seen-IsDict w.check_time key e.seen dict) in
    (
      record e { seen = mark_seen w.mark_time key seen },
      rw (other, left, k', is_seen-new w.check_time key e new, direct, relayed, can) refl,
      kept.entry,
    )
