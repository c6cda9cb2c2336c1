-- ===== src/Mesh/Peers/Registry.antt =====
-- The registry as a map from identifiers to peers: what each operation makes of it.
use bit_chat_pi.Prelude.{
  Bool, Bool-cases, Option, Option-cases, [], ap, arith, if◌then◌else◌, inl, inr, list_beq_iff,
  none, not, refl, some, subst, sym, ℕ, ◌+◌, ◌<◌, ◌=?◌, ◌↔◌, ◌∙◌, ◌≡◌, ◌≤◌, list_eq,
}
use bit_chat_pi.Text.{Text}
use bit_chat_pi.Dict.{get, remove, set}
use bit_chat_pi.Dict.Select.{entries_where-IsDict, get-entries_where, passing, pop_all-keys_where}
use bit_chat_pi.Dict.Keys.{
  IsDict, get-remove_ne, get-remove_self, get-set_ne, get-set_self, remove-IsDict, set-IsDict,
}
use bit_chat_pi.Mesh.Peers.{
  Peer, Peers, Rssi, add_or_update, cleanup, heard, is_stale, remove_peer, update_rssi,
}

-- A map from identifiers to peers, and what it means that a registry stands for it.
abbrev pub View : Type 0
View = Text → Option Peer

abbrev pub view : Peers → View
view peers peer_id = get peer_id peers

-- The map with another value at one identifier.
abbrev pub with_peer : Text → Option Peer → View → View
with_peer peer_id p v j = if j =? peer_id then p else v j

pub view-set :
    (peer_id : Text) (p : Peer) (peers : Peers) (j : Text)
    → view (set peer_id p peers) j ≡ with_peer peer_id (some p) (view peers) j
view-set peer_id p peers j = elim (Bool-cases (j =? peer_id)) [
  | inl same ↦
      let e : j ≡ peer_id = (list_beq_iff j peer_id).0 same in
      rw same (ap (λ k. get k (set peer_id p peers)) e ∙ get-set_self peer_id p peers)
  | inr other ↦ rw other (get-set_ne peer_id j p peers other)
]

cleanup-passing :
    (now : ℕ) (peers : Peers)
    → IsDict peers
    → (j : Text) → view (cleanup now peers) j ≡ passing (λ p. not (is_stale now p)) (view peers j)
unfolding cleanup
cleanup-passing now peers h j =
    ap (get j) (pop_all-keys_where (is_stale now) peers h)
    ∙ get-entries_where (λ p. not (is_stale now p)) j peers h

passing_iff :
    (now : ℕ) (o : Option Peer) (p : Peer)
    → (passing (λ q. not (is_stale now q)) o ≡ some p)
      ↔ ((o ≡ some p) × (now ≤ p.last_seen + 180_000))
passing_iff now none p = (λ h. cc, λ h. cc)
passing_iff now (some q) p = elim (Bool-cases (is_stale now q)) [
  | inl old ↦
      let late : q.last_seen + 180_000 < now = ground (arith, old) in
      (
        λ h. let e : ◌≡◌ {A = Option Peer} none (some p) = rw old at h in cc,
        λ h.
            let same : q ≡ p = cc (h.0) in
            absurd (omega (arith, h.1, late, ap (λ x. x.last_seen) same)),
      )
  | inr young ↦
      let soon : now ≤ q.last_seen + 180_000 = ground (arith, young) in
      (
        λ h.
            let e : some q ≡ some p = rw young at h in
            let same : q ≡ p = cc in
            (ap some same, omega (arith, soon, ap (λ x. x.last_seen) same)),
        λ h. rw young h.0,
      )
]

-- After `cleanup` a registry with distinct keys has exactly the entries that it had before and that were last
-- seen at most 180 seconds ago, unchanged.
pub view-cleanup :
    (now : ℕ) (peers : Peers)
    → IsDict peers
    → (j : Text) (p : Peer)
    → (view (cleanup now peers) j ≡ some p)
      ↔ ((view peers j ≡ some p) × (now ≤ p.last_seen + 180_000))
view-cleanup now peers h j p =
    subst (λ o. (o ≡ some p) ↔ ((view peers j ≡ some p) × (now ≤ p.last_seen + 180_000)))
      (sym (cleanup-passing now peers h j)) (passing_iff now (view peers j) p)

-- The calls that change the registry.
pub data Step (peers : Peers) : Peers → Type 0 where
  hear :
      (now now' : ℕ) (peer_id nickname : Text) (ble_address : Option Text) (rssi : Option Rssi)
      → Step peers (add_or_update now now' peer_id nickname ble_address rssi peers).0
  drop_peer : (peer_id : Text) → Step peers (remove_peer peer_id peers).0
  measure :
      (now : ℕ) (peer_id : Text) (rssi : Rssi) → Step peers (update_rssi now peer_id rssi peers)
  clean : (now : ℕ) → Step peers (cleanup now peers)

pub data Reachable : Peers → Type 0 where
  start : Reachable []
  next : {peers peers' : Peers} → Reachable peers → Step peers peers' → Reachable peers'

-- Distinct keys, each the identifier of its peer.
pub record IsRegistry (peers : Peers) : Type 0 where
  pub distinct : IsDict peers
  pub own_key : (j : Text) (p : Peer) → view peers j ≡ some p → p.peer_id ≡ j

set-IsRegistry :
    (peer_id : Text) (p : Peer) (peers : Peers)
    → p.peer_id ≡ peer_id
    → IsRegistry peers
    → IsRegistry (set peer_id p peers)
set-IsRegistry peer_id p peers own r = record {
  distinct = set-IsDict peer_id p peers r.distinct;
  own_key = λ j q at. elim (Bool-cases (j =? peer_id)) [
    | inl same ↦
        let e : j ≡ peer_id = (list_beq_iff j peer_id).0 same in
        let there : get j (set peer_id p peers) ≡ some p =
          ap (λ k. get k (set peer_id p peers)) e ∙ get-set_self peer_id p peers in
        let pq : p ≡ q = cc in sym (ap (λ x. x.peer_id) pq) ∙ own ∙ sym e
    | inr other ↦ r.own_key j q (sym (get-set_ne peer_id j p peers other) ∙ at)
  ];
}

heard_id :
    (now now' : ℕ) (peer_id nickname : Text) (ble_address : Option Text) (rssi : Option Rssi)
    (peers : Peers)
    → IsRegistry peers
    → (heard now now' peer_id nickname ble_address rssi (get peer_id peers)).peer_id ≡ peer_id
heard_id now now' peer_id nickname ble_address rssi peers r =
    elim (Option-cases (get peer_id peers)) [
      | inl e ↦ rw e refl
      | inr (old, e) ↦ rw e (r.own_key peer_id old e)
    ]

remove-IsRegistry :
    (peer_id : Text) (peers : Peers) → IsRegistry peers → IsRegistry (remove peer_id peers)
remove-IsRegistry peer_id peers r = record {
  distinct = remove-IsDict peer_id peers r.distinct;
  own_key = λ j q at. elim (Bool-cases (j =? peer_id)) [
    | inl same ↦
        let e : j ≡ peer_id = (list_beq_iff j peer_id).0 same in
        let gone : get j (remove peer_id peers) ≡ none =
          ap (λ k. get k (remove peer_id peers)) e ∙ get-remove_self peer_id peers r.distinct in
        absurd (cc (gone, at))
    | inr other ↦ r.own_key j q (sym (get-remove_ne peer_id j peers other) ∙ at)
  ];
}

passing-some :
    (test : Peer → Bool) (o : Option Peer) (q : Peer) → passing test o ≡ some q → o ≡ some q
passing-some test none q h = h
passing-some test (some p) q h = elim (Bool-cases (test p)) [
  | inl t ↦ rw t at h
  | inr f ↦ let e : ◌≡◌ {A = Option Peer} none (some q) = rw f at h in cc
]

cleanup-IsRegistry : (now : ℕ) (peers : Peers) → IsRegistry peers → IsRegistry (cleanup now peers)
unfolding cleanup
cleanup-IsRegistry now peers r = record {
  distinct =
      subst (λ (d : Peers). IsDict d) (sym (pop_all-keys_where (is_stale now) peers r.distinct))
        (entries_where-IsDict (λ p. not (is_stale now p)) peers r.distinct);
  own_key = λ j q at. r.own_key j q (
      passing-some (λ p. not (is_stale now p)) (view peers j) q
        (sym (cleanup-passing now peers r.distinct j) ∙ at));
}

Step-IsRegistry : {peers peers' : Peers} → Step peers peers' → IsRegistry peers → IsRegistry peers'
unfolding add_or_update update_rssi
Step-IsRegistry {peers} (hear now now' peer_id nickname ble_address rssi) r =
    set-IsRegistry peer_id _ peers (heard_id now now' peer_id nickname ble_address rssi peers r) r
Step-IsRegistry {peers} (drop_peer peer_id) r = remove-IsRegistry peer_id peers r
Step-IsRegistry {peers} (measure now peer_id rssi) r = elim (Option-cases (get peer_id peers)) [
  | inl e ↦ rw (e, update_rssi) r
  | inr (p, e) ↦ rw (e, update_rssi) (set-IsRegistry peer_id _ peers (r.own_key peer_id p e) r)
]
Step-IsRegistry {peers} (clean now) r = cleanup-IsRegistry now peers r

-- In every registry that the calls can reach the keys are distinct, and each is the identifier of
-- its peer.
pub Reachable-IsRegistry : {peers : Peers} → Reachable peers → IsRegistry peers
unfolding get
Reachable-IsRegistry start = record { distinct = tt; own_key = λ j p at. cc }
Reachable-IsRegistry (next path step) = Step-IsRegistry step (Reachable-IsRegistry path)
