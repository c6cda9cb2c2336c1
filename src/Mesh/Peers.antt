-- ===== src/Mesh/Peers.antt =====
-- server/bitchatd/mesh/peer_manager.py: the peers that were heard of lately. Times are in
-- milliseconds; the clock is an argument.
pub mod Registry
pub mod History
use bit_chat_pi.Prelude.{Bool, List, Option, [], ltb, none, some, ℕ, ◌-◌, ◌∷◌, list_eq}
use bit_chat_pi.Text.{Text}
use bit_chat_pi.Dict.Select.{keys_where, pop_all}
use bit_chat_pi.Dict.{Dict, get, remove, set}
use bit_chat_pi.Protocol.Constants.{stale_peer_timeout_ms}

-- A signal strength in dBm, of either sign.
pub data Rssi : Type 0 where
  plus minus : ℕ → Rssi

pub record Peer : Type 0 where
  pub peer_id : Text
  pub nickname : Text
  pub first_seen : ℕ
  pub last_seen : ℕ
  pub rssi : Option Rssi
  pub ble_address : Option Text

abbrev pub Peers : Type 0
Peers = Dict Text Peer

abbrev pub touch : ℕ → Peer → Peer
touch now p = record p { last_seen = now }

abbrev pub is_stale : ℕ → Peer → Bool
is_stale now p = ltb stale_peer_timeout_ms (now - p.last_seen)

-- The new value where there is one.
abbrev pub or_old {ℓ} : {A : Type ℓ} → Option A → Option A → Option A
or_old none old = old
or_old (some new) old = some new

abbrev pub or_old_nickname : Text → Text → Text
or_old_nickname [] old = old
or_old_nickname (c ∷ cs) old = c ∷ cs

abbrev pub updated : ℕ → Text → Option Text → Option Rssi → Peer → Peer
updated now nickname ble_address rssi p = record p {
  last_seen = now;
  nickname = or_old_nickname nickname p.nickname;
  ble_address = or_old ble_address p.ble_address;
  rssi = or_old rssi p.rssi;
}

-- A new peer reads the clock twice, for the second time at `now'`.
abbrev pub new_peer : ℕ → ℕ → Text → Text → Option Text → Option Rssi → Peer
new_peer now now' peer_id nickname ble_address rssi = record {
  peer_id = peer_id;
  nickname = nickname;
  first_seen = now;
  last_seen = now';
  rssi = rssi;
  ble_address = ble_address;
}

abbrev pub heard : ℕ → ℕ → Text → Text → Option Text → Option Rssi → Option Peer → Peer
heard now now' peer_id nickname ble_address rssi none =
    new_peer now now' peer_id nickname ble_address rssi
heard now now' peer_id nickname ble_address rssi (some old) =
    updated now nickname ble_address rssi old

-- The changed peer is returned, and stands in the registry.
unfoldable pub add_or_update :
    ℕ → ℕ → Text → Text → Option Text → Option Rssi → Peers → Peers × Peer
add_or_update now now' peer_id nickname ble_address rssi peers =
    let p = heard now now' peer_id nickname ble_address rssi (get peer_id peers) in
    (set peer_id p peers, p)

-- `remove`
abbrev pub remove_peer : Text → Peers → Peers × Option Peer
remove_peer peer_id peers = (remove peer_id peers, get peer_id peers)

unfoldable pub update_rssi : ℕ → Text → Rssi → Peers → Peers
update_rssi now peer_id rssi peers = elim (get peer_id peers) [
  | none ↦ peers
  | some p ↦ set peer_id (touch now (record p { rssi = some rssi })) peers
]

-- One round of `_cleanup_loop`.
abbrev pub stale_peers : ℕ → Peers → List Text
stale_peers now = keys_where (is_stale now)

unfoldable pub cleanup : ℕ → Peers → Peers
cleanup now peers = pop_all (stale_peers now peers) peers
