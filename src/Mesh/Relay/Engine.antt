-- ===== src/Mesh/Relay/Engine.antt =====
-- `RelayEngine.handle_relay` and `is_addressed_to_me` of relay_engine.py.
use bit_chat_pi.Prelude.{
  Bool, List, Option, [], false, if◌then◌else◌, none, some, ℕ, ◌&&◌, ◌-◌, ◌==◌, ◌=?◌, ◌>>=◌, ◌||◌,
  ◌∷◌, list_eq,
}
use bit_chat_pi.Bytes.{Bytes}
use bit_chat_pi.Text.{Text}
use bit_chat_pi.Text.Hex.{hex}
use bit_chat_pi.Protocol.Constants.{broadcast_id}
use bit_chat_pi.Protocol.Packet.{Packet, with_ttl}
use bit_chat_pi.Mesh.Relay.Cache.{Seen, is_seen, mark_seen, packet_key}
use bit_chat_pi.Mesh.Relay.Route.{find_self_in_route, has_duplicate_hops, next_hop}
use bit_chat_pi.Mesh.Relay.Decision.{should_relay}

pub record Engine : Type 0 where
  pub my_peer_id : Bytes
  pub seen : Seen

-- What a call finds outside: the clock of the two reads, the callbacks, which may be unset, the
-- size of the network and the random number. `send_to_peer` answers whether the peer was reached.
pub record World : Type 0 where
  pub check_time : ℕ
  pub mark_time : ℕ
  pub send_to_peer : Option (Text → Packet → Bool)
  pub can_broadcast : Bool
  pub network_size : ℕ
  pub roll : ℕ

pub data Action : Type 0 where
  unicast : Text → Packet → Action
  broadcast : Packet → Text → Action

-- Which of our hops the packet has reached, and who is next.
abbrev pub next_of : Engine → Packet → Option Text
next_of e p = elim p.route [
  | none ↦ none
  | some route ↦ elim (find_self_in_route route e.my_peer_id) [
    | none ↦ none
    | some i ↦ next_hop p i
  ]
]

abbrev pub repeated_hops : Option (List Bytes) → Bool
repeated_hops none = false
repeated_hops (some route) = has_duplicate_hops route

-- The last step: the broadcast, behind the attempts before it.
unfoldable pub try_broadcast : World → Packet → Text → List Action
try_broadcast w p from_peer_id =
    if should_relay w.roll w.network_size p && w.can_broadcast
    then broadcast p from_peer_id ∷ []
    else []

-- `if next_hop and self.send_to_peer`; a failed attempt falls through to the broadcast.
unfoldable pub forward_to : World → Option Text → Packet → Text → List Action
unfolding try_broadcast
forward_to w none p from_peer_id = try_broadcast w p from_peer_id
forward_to w (some []) p from_peer_id = try_broadcast w p from_peer_id
forward_to w (some (c ∷ cs)) p from_peer_id = elim w.send_to_peer [
  | none ↦ try_broadcast w p from_peer_id
  | some send ↦
      if send (c ∷ cs) p
      then unicast (c ∷ cs) p ∷ []
      else unicast (c ∷ cs) p ∷ try_broadcast w p from_peer_id
]

unfoldable pub forward : Engine → World → Packet → Text → List Action
unfolding forward_to
forward e w p from_peer_id =
    if repeated_hops p.route then [] else forward_to w (next_of e p) p from_peer_id

-- The tail of `handle_relay`, from the deduplication on, for the packet with one hop less.
unfoldable pub relay_new : Engine → World → Bytes → Packet → Text → Engine × List Action
unfolding forward
relay_new e w key p from_peer_id =
    let (seen, old) = is_seen w.check_time key e.seen in
    if old
    then (record e { seen = seen }, [])
    else (record e { seen = mark_seen w.mark_time key seen }, forward e w p from_peer_id)

-- `none` is the OverflowError of the key.
unfoldable pub handle_relay : Engine → World → Packet → Text → Option (Engine × List Action)
unfolding relay_new
handle_relay e w p from_peer_id =
    if from_peer_id =? hex e.my_peer_id || p.ttl == 0 then some (e, []) else (do
      key ← packet_key (with_ttl p (p.ttl - 1))
      some (relay_new e w key (with_ttl p (p.ttl - 1)) from_peer_id))

unfoldable pub is_addressed_to_me : Engine → Packet → Bool
is_addressed_to_me e p = elim p.recipient_id [
  | none ↦ false
  | some r ↦ if r =? broadcast_id then false else r =? e.my_peer_id
]
