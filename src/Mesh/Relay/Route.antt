-- ===== src/Mesh/Relay/Route.antt =====
-- The source-route helpers of relay_engine.py.
use bit_chat_pi.Prelude.{
  Bool, List, Option, [], false, get_elem?, if◌then◌else◌, none, some, take, true, ℕ, ◌+◌, ◌=?◌,
  ◌||◌, ◌∷◌, list_eq,
}
use bit_chat_pi.Bytes.{Bytes}
use bit_chat_pi.Text.{Text}
use bit_chat_pi.Text.Hex.{hex}
use bit_chat_pi.Protocol.Constants.{peer_id_size}
use bit_chat_pi.Protocol.Packet.{Packet}

abbrev pub contains : Bytes → List Bytes → Bool
contains x [] = false
contains x (y ∷ ys) = x =? y || contains x ys

-- `_has_duplicate_hops`, with the set of the hops that were passed.
unfoldable pub repeats : List Bytes → List Bytes → Bool
repeats passed [] = false
repeats passed (hop ∷ hops) =
    let rest = repeats (hop ∷ passed) hops in if contains hop passed then true else rest

unfoldable pub has_duplicate_hops : List Bytes → Bool
unfolding repeats
has_duplicate_hops hops = repeats [] hops

-- `_find_self_in_route`; `none` is -1.
unfoldable pub find_from : ℕ → Bytes → List Bytes → Option ℕ
find_from i me [] = none
find_from i me (hop ∷ hops) =
    let rest = find_from (i + 1) me hops in if hop =? take peer_id_size me then some i else rest

unfoldable pub find_self_in_route : List Bytes → Bytes → Option ℕ
unfolding find_from
find_self_in_route route me = find_from 0 me route

-- `if packet.recipient_id`: `None` and the empty string are false.
abbrev pub recipient_hex : Option Bytes → Option Text
recipient_hex none = none
recipient_hex (some []) = none
recipient_hex (some (b ∷ bs)) = some (hex (b ∷ bs))

unfoldable pub next_hop : Packet → ℕ → Option Text
next_hop p my_idx = elim p.route [
  | none ↦ none
  | some route ↦ elim (get_elem? route (my_idx + 1)) [
    | some hop ↦ some (hex hop)
    | none ↦ recipient_hex p.recipient_id
  ]
]
