-- ===== src/Tests/Relays.antt =====
-- Packets through the relay engine.
use bit_chat_pi.Mesh.Relay.Flood.{handle_relay_floods}
use bit_chat_pi.Prelude.{
  All, Bool, [], ap, arith, false, get_elem?, inl, length, list_beq, refl, some, true, ◌++◌, ◌+◌,
  ◌↔◌, ◌∷◌, ◌≡◌, ◌≤◌, ◌⊎◌, list_eq,
}
use bit_chat_pi.Bytes.{Bytes, pack, to_be}
use bit_chat_pi.Dict.{get, remove}
use bit_chat_pi.Text.{Text}
use bit_chat_pi.Text.Hex.{hex, hex_digit}
use bit_chat_pi.Protocol.Packet.{Packet, with_ttl}
use bit_chat_pi.Tests.Codecs.{ident, plain}
use bit_chat_pi.Mesh.Relay.Cache.{evict, is_seen, mark_seen, packet_key}
use bit_chat_pi.Mesh.Relay.Engine.{
  Engine, World, broadcast, forward, forward_to, handle_relay, relay_new, try_broadcast, unicast,
}
use bit_chat_pi.Mesh.Relay.Decision.{relay_prob, should_relay, should_relay_mono}
use bit_chat_pi.Mesh.Relay.Dedup.{IsValid, engine_after, handle_relay-IsValid}
use bit_chat_pi.Mesh.Relay.Once.{Call, relay_once, run}
use bit_chat_pi.Mesh.Relay.Hops.{Becomes-ttl, actions, handle_relay_sends, here, hop, sent_packet}
use bit_chat_pi.Mesh.Relay.Route.{has_duplicate_hops}
use bit_chat_pi.Mesh.Relay.Routing.{Distinct, forward_along_route, has_duplicate_hops_iff}

abbrev me : Engine
me = record { my_peer_id = ident 5; seen = [] }

abbrev sending : Text → Packet → Bool
sending to p = true

abbrev world : World
world = record {
  check_time = 1000;
  mark_time = 1001;
  send_to_peer = some sending;
  can_broadcast = true;
  network_size = 3;
  roll = 0;
}

abbrev neighbour : Text
neighbour = 110 ∷ []

abbrev key : Bytes
key = ident 9 ++ (1 ∷ 0 ∷ 0 ∷ 0 ∷ 0 ∷ 0 ∷ 0 ∷ 0 ∷ 0 ∷ [])

abbrev marked : Engine
marked = record { my_peer_id = ident 5; seen = (key, 1001) ∷ [] }

relay-plain :
    handle_relay me world plain neighbour
    ≡ some (marked, broadcast (with_ttl plain 6) neighbour ∷ [])
unfolding list_beq handle_relay relay_new forward forward_to try_broadcast packet_key pack to_be
    is_seen get mark_seen remove evict should_relay hex hex_digit
relay-plain = refl

me-IsValid : IsValid me
me-IsValid = record { distinct = tt; bounded = omega arith }

handle_relay-IsValid_example : IsValid (engine_after me (handle_relay me world plain neighbour))
handle_relay-IsValid_example = handle_relay-IsValid me world plain neighbour me-IsValid

abbrev relay_again : Call
relay_again = record { world = world; packet = with_ttl plain 3; from_peer_id = neighbour }

packet_key-again : packet_key (with_ttl plain 3) ≡ packet_key plain
unfolding packet_key
packet_key-again = refl

relay_once_example :
    handle_relay (run marked (relay_again ∷ [])) world (with_ttl plain 3) neighbour
    ≡ some (run marked (relay_again ∷ []), [])
relay_once_example =
    relay_once me world plain neighbour marked (broadcast (with_ttl plain 6) neighbour ∷ [])
      (relay_again ∷ []) relay_again me-IsValid relay-plain (λ e. cc) packet_key-again
      (omega arith, (omega arith, tt)) (omega arith)

handle_relay_sends_example :
    let acts = actions (handle_relay me world plain neighbour) in
    All (λ a. sent_packet a ≡ with_ttl plain 6) acts
    × (length acts ≤ 2)
    × ((plain.ttl ≡ 0) ⊎ (neighbour ≡ hex (ident 5)) → acts ≡ [])
handle_relay_sends_example = handle_relay_sends me world plain neighbour

Becomes-ttl_example : (1 + 6 ≡ 7) × (with_ttl plain 6 ≡ with_ttl plain 6)
Becomes-ttl_example = Becomes-ttl plain (
    hop here me world neighbour 0 (broadcast (with_ttl plain 6) neighbour)
      (ap (λ r. get_elem? (actions r) 0) relay-plain))

handle_relay_floods_example :
    (e' : Engine) × (handle_relay me world (with_ttl plain 5) neighbour
      ≡ some (e', broadcast (with_ttl plain 4) neighbour ∷ []))
    × (get key e'.seen ≡ some world.mark_time)
unfolding list_beq hex hex_digit packet_key pack to_be get
handle_relay_floods_example =
    handle_relay_floods me world (with_ttl plain 5) neighbour key tt refl refl (omega arith) refl
      (λ ts h. absurd cc) refl (omega arith) (inl (omega arith))

half : should_relay 4503599627370496 60 (with_ttl plain 2) ≡ true
unfolding should_relay relay_prob
half = refl

should_relay_mono_example : should_relay 3 30 (with_ttl plain 3) ≡ true
should_relay_mono_example =
    should_relay_mono 4503599627370496 3 60 30 (with_ttl plain 2) 3 (omega arith) (omega arith)
      (omega arith) half

has_duplicate_hops_iff_example :
    (has_duplicate_hops (ident 3 ∷ ident 5 ∷ []) ≡ false) ↔ Distinct (ident 3 ∷ ident 5 ∷ [])
has_duplicate_hops_iff_example = has_duplicate_hops_iff (ident 3 ∷ ident 5 ∷ [])

abbrev on_route : Packet
on_route = record plain { route = some (ident 3 ∷ ident 5 ∷ ident 4 ∷ []) }

on_route-Distinct : Distinct (ident 3 ∷ ident 5 ∷ ident 4 ∷ [])
unfolding list_beq
on_route-Distinct = (refl, (refl, (refl, tt)))

forward_along_route_example :
    forward me world on_route neighbour ≡ unicast (hex (ident 4)) on_route ∷ []
forward_along_route_example =
    forward_along_route me world on_route neighbour (ident 3 ∷ []) (ident 4) [] sending
      on_route-Distinct refl (λ e. cc) refl refl
