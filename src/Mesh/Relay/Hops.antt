-- ===== src/Mesh/Relay/Hops.antt =====
-- What a relayed packet looks like, and how far it can go.
use bit_chat_pi.Prelude.{
  All, All-get_elem?, Bool-cases, List, Option, Option-cases, [], ap, arith, drop, get_elem?, inl,
  inr, length, list_beq_iff, none, refl, some, suc, true, ℕ, ◌+◌, ◌-◌, ◌==◌, ◌=?◌, ◌||◌, ◌∷◌, ◌≡◌,
  ◌≢◌, ◌≤◌, ◌⊎◌, list_eq,
}
use bit_chat_pi.Bytes.{Bytes}
use bit_chat_pi.Text.{Text}
use bit_chat_pi.Text.Hex.{hex}
use bit_chat_pi.Protocol.Packet.{Packet, with_ttl}
use bit_chat_pi.Mesh.Relay.Engine.{
  Action, Engine, World, broadcast, forward, forward_to, handle_relay, next_of, relay_new,
  try_broadcast, unicast,
}
use bit_chat_pi.Mesh.Relay.Cache.{packet_key}

abbrev pub sent_packet : Action → Packet
sent_packet (unicast to p) = p
sent_packet (broadcast p from_peer_id) = p

-- At most one attempt at the next hop, and one broadcast, of this packet.
record Sends (p : Packet) (acts : List Action) : Type 0 where
  all : All (λ a. sent_packet a ≡ p) acts
  few : length acts ≤ 2

try_broadcast-Sends :
    (w : World) (p : Packet) (from_peer_id : Text)
    → Sends p (try_broadcast w p from_peer_id) × (length (try_broadcast w p from_peer_id) ≤ 1)
unfolding try_broadcast
try_broadcast-Sends w p from_peer_id = ground arith

forward_to-Sends :
    (w : World) (to : Option Text) (p : Packet) (from_peer_id : Text)
    → Sends p (forward_to w to p from_peer_id)
unfolding forward_to
forward_to-Sends w none p from_peer_id = (try_broadcast-Sends w p from_peer_id).0
forward_to-Sends w (some []) p from_peer_id = (try_broadcast-Sends w p from_peer_id).0
forward_to-Sends w (some (c ∷ cs)) p from_peer_id =
    let (s, few) = try_broadcast-Sends w p from_peer_id in ground (arith, s.all)

relay_new-Sends :
    (e : Engine) (w : World) (key : Bytes) (p : Packet) (from_peer_id : Text)
    → Sends p (relay_new e w key p from_peer_id).1
unfolding relay_new forward
relay_new-Sends e w key p from_peer_id =
    ground (arith, forward_to-Sends w (next_of e p) p from_peer_id)

abbrev pub actions : Option (Engine × List Action) → List Action
actions none = []
actions (some (e, acts)) = acts

not_ours :
    (e : Engine) (p : Packet) (from_peer_id : Text)
    → (p.ttl ≡ 0) ⊎ (from_peer_id ≡ hex e.my_peer_id)
    → (from_peer_id =? hex e.my_peer_id || p.ttl == 0) ≡ true
not_ours e p from_peer_id h = ground (arith, list_beq_iff from_peer_id (hex e.my_peer_id))

-- Whatever is sent on is the received packet with one hop less, in at most two actions: the own
-- packets and those without a hop left are not sent on.
pub handle_relay_sends :
    (e : Engine) (w : World) (p : Packet) (from_peer_id : Text)
    → let acts = actions (handle_relay e w p from_peer_id) in
      All (λ a. sent_packet a ≡ with_ttl p (p.ttl - 1)) acts
      × (length acts ≤ 2)
      × ((p.ttl ≡ 0) ⊎ (from_peer_id ≡ hex e.my_peer_id) → acts ≡ [])
unfolding handle_relay
handle_relay_sends e w p from_peer_id =
    elim (Bool-cases (from_peer_id =? hex e.my_peer_id || p.ttl == 0)) [
      | inl drop ↦ rw (drop, handle_relay) (tt, omega arith, λ _. refl)
      | inr keep ↦ elim (Option-cases (packet_key (with_ttl p (p.ttl - 1)))) [
        | inl e' ↦ rw (keep, e', handle_relay) (tt, omega arith, λ _. refl)
        | inr (key, e') ↦
            let s = relay_new-Sends e w key (with_ttl p (p.ttl - 1)) from_peer_id in
            rw (keep, e', handle_relay) (s.all, s.few, λ h. cc (keep, not_ours e p from_peer_id h))
      ]
    ]

-- The packets that a packet can become on its way through the mesh, in a number of hops.
pub data Becomes (p : Packet) : ℕ → Packet → Type 0 where
  here : Becomes p 0 p
  hop :
      {n : ℕ} {q : Packet}
      → Becomes p n q
      → (e : Engine) (w : World) (from_peer_id : Text) (i : ℕ) (a : Action)
      → get_elem? (actions (handle_relay e w q from_peer_id)) i ≡ some a
      → Becomes p (suc n) (sent_packet a)

hop_spends :
    (e : Engine) (w : World) (q : Packet) (from_peer_id : Text) (i : ℕ) (a : Action)
    → get_elem? (actions (handle_relay e w q from_peer_id)) i ≡ some a
    → (sent_packet a ≡ with_ttl q (q.ttl - 1)) × (q.ttl ≢ 0)
hop_spends e w q from_peer_id i a at =
    let (all, _, quiet) = handle_relay_sends e w q from_peer_id in
    (
      All-get_elem? (λ b. sent_packet b ≡ with_ttl q (q.ttl - 1)) _ i all at,
      λ z. cc (at, ap (λ acts. get_elem? {A = Action} acts i) (quiet (inl z))),
    )

-- After n hops exactly n of the packet's hops are spent, and nothing else of it has changed: no
-- packet makes more hops than it was sent with.
pub Becomes-ttl :
    (p : Packet) {n : ℕ} {q : Packet} → Becomes p n q → (n + q.ttl ≡ p.ttl) × (q ≡ with_ttl p q.ttl)
Becomes-ttl p here = (omega arith, refl)
Becomes-ttl p (hop {q = q} path e w from_peer_id i a at) =
    let (spent, same) = Becomes-ttl p path in
    let (next, more) = hop_spends e w q from_peer_id i a at in ground arith
