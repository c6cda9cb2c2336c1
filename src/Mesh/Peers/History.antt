-- ===== src/Mesh/Peers/History.antt =====
-- The registry as a summary of what was heard.
use bit_chat_pi.Dict.{get}
use bit_chat_pi.Text.{Text}
use bit_chat_pi.Prelude.{
  Bool-cases, List, Option, [], ap, if◌then◌else◌, inl, inr, list_beq_iff, none, or_else, refl,
  some, sym, ℕ, ◌=?◌, ◌∙◌, ◌∷◌, ◌≡◌, list_eq,
}
use bit_chat_pi.Mesh.Peers.{Peer, Peers, Rssi, add_or_update, heard, or_old, or_old_nickname}
use bit_chat_pi.Mesh.Peers.Registry.{view, view-set}

-- A call of `add_or_update`.
pub record Hearing : Type 0 where
  pub now : ℕ
  pub now' : ℕ
  pub peer_id : Text
  pub nickname : Text
  pub ble_address : Option Text
  pub rssi : Option Rssi

-- The registry after some calls, the latest first.
abbrev pub heard_all : List Hearing → Peers
heard_all [] = []
heard_all (h ∷ hs) =
    (add_or_update h.now h.now' h.peer_id h.nickname h.ble_address h.rssi (heard_all hs)).0

-- The calls for one peer.
abbrev pub of_peer : Text → List Hearing → List Hearing
of_peer k [] = []
of_peer k (h ∷ hs) = if k =? h.peer_id then h ∷ of_peer k hs else of_peer k hs

-- The latest value that was given.
abbrev pub latest {ℓ} : {A : Type ℓ} → (Hearing → Option A) → List Hearing → Option A
latest f [] = none
latest f (h ∷ hs) = or_else (f h) (latest f hs)

-- A nickname as an optional one: the empty one is none.
abbrev pub given_name : Text → Option Text
given_name [] = none
given_name (c ∷ cs) = some (c ∷ cs)

abbrev pub named : Hearing → Option Text
named h = given_name h.nickname

abbrev pub text_of : Option Text → Text
text_of none = []
text_of (some s) = s

-- The clock at the first call.
abbrev pub first_time : Hearing → List Hearing → ℕ
first_time h [] = h.now
first_time h (g ∷ gs) = first_time g gs

-- The clock at the last call, which a first call reads twice.
abbrev pub last_time : Hearing → List Hearing → ℕ
last_time h [] = h.now'
last_time h (g ∷ gs) = h.now

-- What the calls for a peer say of it.
abbrev pub summary : Text → List Hearing → Option Peer
summary k [] = none
summary k (h ∷ hs) = some (record {
  peer_id = k;
  nickname = text_of (latest named (h ∷ hs));
  first_seen = first_time h hs;
  last_seen = last_time h hs;
  rssi = latest (λ g. g.rssi) (h ∷ hs);
  ble_address = latest (λ g. g.ble_address) (h ∷ hs);
})

or_old_lem {ℓ} : {A : Type ℓ} (new old : Option A) → or_old new old ≡ or_else new old
or_old_lem none old = refl
or_old_lem (some a) old = refl

or_old_none {ℓ} : {A : Type ℓ} (o : Option A) → or_else o none ≡ o
or_old_none none = refl
or_old_none (some a) = refl

or_old_nickname_lem :
    (nickname : Text) (o : Option Text)
    → or_old_nickname nickname (text_of o) ≡ text_of (or_else (given_name nickname) o)
or_old_nickname_lem [] o = refl
or_old_nickname_lem (c ∷ cs) o = refl

new_nickname_lem : (nickname : Text) → nickname ≡ text_of (or_else (given_name nickname) none)
new_nickname_lem [] = refl
new_nickname_lem (c ∷ cs) = refl

heard-summary :
    (now now' : ℕ) (k nickname : Text) (ble_address : Option Text) (rssi : Option Rssi)
    (hs : List Hearing)
    → let h : Hearing = record {
      now = now;
      now' = now';
      peer_id = k;
      nickname = nickname;
      ble_address = ble_address;
      rssi = rssi;
    } in
      some (heard now now' k nickname ble_address rssi (summary k hs)) ≡ summary k (h ∷ hs)
heard-summary now now' k nickname ble_address rssi [] =
    rw (or_old_none ble_address, or_old_none rssi, ← new_nickname_lem nickname) refl
heard-summary now now' k nickname ble_address rssi (g ∷ gs) =
    rw
      (
        or_old_lem ble_address (latest (λ x. x.ble_address) (g ∷ gs)),
        or_old_lem rssi (latest (λ x. x.rssi) (g ∷ gs)),
        or_old_nickname_lem nickname (latest named (g ∷ gs)),
      )
      refl

-- However often and in whatever order peers were heard of, the registry has a peer exactly if it was heard of,
-- with the latest nickname, signal strength and address that were given, the time of the first call and that
-- of the last one.
pub view-heard_all :
    (hs : List Hearing) (k : Text) → view (heard_all hs) k ≡ summary k (of_peer k hs)
unfolding add_or_update
view-heard_all [] k = unfold get in refl
view-heard_all (h ∷ hs) k =
    let p =
      heard h.now h.now' h.peer_id h.nickname h.ble_address h.rssi (get h.peer_id (heard_all hs)) in
    view-set h.peer_id p (heard_all hs) k ∙ elim (Bool-cases (k =? h.peer_id)) [
      | inl same ↦
          let eq : k ≡ h.peer_id = (list_beq_iff k h.peer_id).0 same in
          rw same (
            ap (λ o. some (heard h.now h.now' h.peer_id h.nickname h.ble_address h.rssi o))
              (view-heard_all hs h.peer_id)
            ∙ heard-summary h.now h.now' h.peer_id h.nickname h.ble_address h.rssi
                (of_peer h.peer_id hs)
            ∙ ap (λ j. summary j (h ∷ of_peer j hs)) (sym eq))
      | inr other ↦ rw other (view-heard_all hs k)
    ]
