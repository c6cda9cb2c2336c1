-- ===== src/Tests/Registry.antt =====
-- Two peers in the registry.
use bit_chat_pi.Mesh.Peers.History.{Hearing, heard_all, of_peer, summary, view-heard_all}
use bit_chat_pi.Prelude.{List, [], list_beq, none, refl, some, ℕ, ◌+◌, ◌↔◌, ◌∷◌, ◌≡◌, ◌≤◌, list_eq}
use bit_chat_pi.Text.{Text}
use bit_chat_pi.Dict.{get, remove}
use bit_chat_pi.Dict.Keys.{IsDict}
use bit_chat_pi.Mesh.Peers.{Peer, Peers, add_or_update, cleanup, new_peer}
use bit_chat_pi.Mesh.Peers.Registry.{
  IsRegistry, Reachable-IsRegistry, clean, hear, next, start, view, view-cleanup,
}

abbrev anna : Text
anna = 97 ∷ []

abbrev bert : Text
bert = 98 ∷ []

abbrev met : ℕ → Text → Peer
met now peer_id = new_peer now (now + 1) peer_id (78 ∷ []) none none

abbrev both : Peers
both = (anna, met 0 anna) ∷ (bert, met 200_000 bert) ∷ []

both-IsDict : IsDict both
unfolding get list_beq
both-IsDict = (refl, (refl, tt))

-- Bert is heard of once, and Anna twice, the second time without a nickname.
abbrev heard_of : List Hearing
heard_of =
    record {
      now = 9;
      now' = 10;
      peer_id = anna;
      nickname = [];
      ble_address = some bert;
      rssi = none;
    }
    ∷ record { now = 5; now' = 6; peer_id = bert; nickname = []; ble_address = none; rssi = none }
    ∷ record {
      now = 2;
      now' = 3;
      peer_id = anna;
      nickname = 78 ∷ [];
      ble_address = none;
      rssi = none;
    }
    ∷ []

heard_of-anna :
    summary anna (of_peer anna heard_of)
    ≡ some (record {
      peer_id = anna;
      nickname = 78 ∷ [];
      first_seen = 2;
      last_seen = 9;
      rssi = none;
      ble_address = some bert;
    })
unfolding list_beq
heard_of-anna = refl

view-heard_all_example : view (heard_all heard_of) anna ≡ summary anna (of_peer anna heard_of)
view-heard_all_example = view-heard_all heard_of anna

view-cleanup_example :
    (view (cleanup 200_000 both) bert ≡ some (met 200_000 bert))
    ↔ ((view both bert ≡ some (met 200_000 bert)) × (200_000 ≤ 200_001 + 180_000))
view-cleanup_example = view-cleanup 200_000 both both-IsDict bert (met 200_000 bert)

both-cleaned : cleanup 200_000 both ≡ (bert, met 200_000 bert) ∷ []
unfolding cleanup get remove list_beq
both-cleaned = refl

Reachable-IsRegistry_example :
    IsRegistry (cleanup 200_000 (add_or_update 0 1 anna (78 ∷ []) none none []).0)
Reachable-IsRegistry_example =
    Reachable-IsRegistry (next (next start (hear 0 1 anna (78 ∷ []) none none)) (clean 200_000))
