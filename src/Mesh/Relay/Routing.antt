-- ===== src/Mesh/Relay/Routing.antt =====
-- Source routes: loops are refused, and a packet goes to the hop after ours.
use bit_chat_pi.Prelude.{
  =?-refl, Bool, List, [], ap, arith, false, get_elem?-append, length, list_beq_iff, refl, some,
  take, true, ℕ, ◌++◌, ◌+◌, ◌=?◌, ◌↔◌, ◌∷◌, ◌≡◌, ◌≢◌, list_eq,
}
use bit_chat_pi.Bytes.{Bytes}
use bit_chat_pi.Mesh.Relay.Route.{
  contains, find_from, find_self_in_route, has_duplicate_hops, next_hop, repeats,
}
use bit_chat_pi.Protocol.Constants.{peer_id_size}
use bit_chat_pi.Text.{Text}
use bit_chat_pi.Text.Hex.{hex, hex-ne_nil}
use bit_chat_pi.Protocol.Packet.{Packet}
use bit_chat_pi.Mesh.Relay.Engine.{Engine, World, forward, forward_to, next_of, unicast}

-- No hop of the route comes twice.
abbrev pub Distinct : List Bytes → Type 0
Distinct [] = Unit
Distinct (hop ∷ hops) = (contains hop hops ≡ false) × Distinct hops

-- No hop of `hops` is among the hops that were passed.
abbrev Apart : List Bytes → List Bytes → Type 0
Apart passed [] = Unit
Apart passed (hop ∷ hops) = (contains hop passed ≡ false) × Apart passed hops

Apart-cons :
    (hop : Bytes) (passed hops : List Bytes)
    → Apart (hop ∷ passed) hops ↔ ((contains hop hops ≡ false) × Apart passed hops)
Apart-cons hop passed [] = (λ h. (refl, tt), λ h. tt)
Apart-cons hop passed (x ∷ hops) =
    ground (arith, Apart-cons hop passed hops, list_beq_iff hop x, list_beq_iff x hop)

repeats_iff :
    (passed hops : List Bytes) → (repeats passed hops ≡ false) ↔ (Distinct hops × Apart passed hops)
unfolding repeats
repeats_iff passed [] = (λ h. (tt, tt), λ h. refl)
repeats_iff passed (hop ∷ hops) =
    ground (arith, repeats_iff (hop ∷ passed) hops, Apart-cons hop passed hops)

Apart-nil : (hops : List Bytes) → Apart [] hops
Apart-nil [] = tt
Apart-nil (hop ∷ hops) = (refl, Apart-nil hops)

-- The loop test answers false exactly when no hop of the route comes twice.
pub has_duplicate_hops_iff : (hops : List Bytes) → (has_duplicate_hops hops ≡ false) ↔ Distinct hops
unfolding has_duplicate_hops
has_duplicate_hops_iff hops = ground (arith, repeats_iff [] hops, Apart-nil hops)

contains-append :
    (x : Bytes) (front : List Bytes) (hop : Bytes) (rest : List Bytes)
    → contains x (front ++ (hop ∷ rest)) ≡ false
    → (x =? hop) ≡ false
contains-append x [] hop rest h = ground arith
contains-append x (y ∷ front) hop rest h = ground (arith, contains-append x front hop rest)

Distinct-front :
    (front : List Bytes) (hop : Bytes) (rest : List Bytes)
    → Distinct (front ++ (hop ∷ rest))
    → contains hop front ≡ false
Distinct-front [] hop rest h = refl
Distinct-front (x ∷ front) hop rest h = ground (
  arith,
  Distinct-front front hop rest h.1,
  contains-append x front hop rest,
  list_beq_iff x hop,
  list_beq_iff hop x,
)

find_from-front :
    (i : ℕ) (me : Bytes) (front rest : List Bytes)
    → contains (take peer_id_size me) front ≡ false
    → find_from i me (front ++ (take peer_id_size me ∷ rest)) ≡ some (i + length front)
unfolding find_from
find_from-front i me [] rest h = rw (=?-refl (take peer_id_size me)) (ap some (omega arith))
find_from-front i me (x ∷ front) rest h = ground (
  arith,
  find_from-front (i + 1) me front rest,
  list_beq_iff x (take peer_id_size me),
  list_beq_iff (take peer_id_size me) x,
)

forward_to_reached :
    (w : World) (t : Text) (p : Packet) (from_peer_id : Text) (send : Text → Packet → Bool)
    → t ≢ []
    → w.send_to_peer ≡ some send
    → send t p ≡ true
    → forward_to w (some t) p from_peer_id ≡ unicast t p ∷ []
unfolding forward_to
forward_to_reached w [] p from_peer_id send full s reached = absurd (full refl)
forward_to_reached w (c ∷ cs) p from_peer_id send full s reached = rw (s, forward_to, reached)

module _ (e : Engine) (w : World) (p : Packet) (from_peer_id : Text) (front : List Bytes)
    (next : Bytes) (rest : List Bytes) where
  abbrev hops : List Bytes
  hops = front ++ (take peer_id_size e.my_peer_id ∷ next ∷ rest)

  next_of-route : Distinct hops → p.route ≡ some hops → next_of e p ≡ some (hex next)
  unfolding find_self_in_route next_hop
  next_of-route d r =
      let me =
        find_from-front 0 e.my_peer_id front (next ∷ rest)
          (Distinct-front front (take peer_id_size e.my_peer_id) (next ∷ rest) d) in
      let there =
        get_elem?-append front (take peer_id_size e.my_peer_id ∷ next ∷ rest) (0 + length front + 1)
          1 (omega arith) in
      simp (next_of, r, find_self_in_route, me, next_hop, there)

  -- A packet whose route has no repeated hop, and names us and after us a hop that is not empty, is given to
  -- `send_to_peer` for that hop, and to nobody else when the hop is reached.
  pub forward_along_route :
      (send : Text → Packet → Bool)
      → Distinct hops
      → p.route ≡ some hops
      → next ≢ []
      → w.send_to_peer ≡ some send
      → send (hex next) p ≡ true
      → forward e w p from_peer_id ≡ unicast (hex next) p ∷ []
  unfolding forward forward_to
  forward_along_route send d r full s reached =
      let clear = (has_duplicate_hops_iff hops).1 d in
      simp (next_of-route d r, r, clear)
        (forward_to_reached w (hex next) p from_peer_id send (hex-ne_nil next full) s reached)
