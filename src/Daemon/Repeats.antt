-- ===== src/Daemon/Repeats.antt =====
-- `_dispatch_dedup_key` and the table of `_is_dispatch_duplicate` of server/daemon.py.
use bit_chat_pi.Mesh.Relay.Once.{Kept-weaken}
use bit_chat_pi.Mesh.Relay.Order.{
  Kept, append-IsDict, behind-last-le, behind-last_self, behind-remove-le, evict-IsDict, evict-get,
  get-last_ne, get-last_self, length-evict-le,
}
use bit_chat_pi.Dict.{get, remove}
use bit_chat_pi.Dict.Keys.{Fresh, IsDict, get-remove_ne, get-remove_self, remove-IsDict}
use bit_chat_pi.Protocol.Packet.{Packet}
use bit_chat_pi.Bytes.{Bytes, pack}
use bit_chat_pi.Prelude.{
  Bool, Bool-cases, Option, Option-cases, [], ap, arith, false, if◌then◌else◌, inl, inr, length,
  list_beq_iff, ltb, lt→ltb, none, refl, some, sym, true, ℕ, ◌++◌, ◌+◌, ◌-◌, ◌<◌, ◌==◌, ◌=?◌, ◌>>=◌,
  ◌||◌, ◌∙◌, ◌∷◌, ◌≡◌, ◌≤◌, list_eq,
}
use bit_chat_pi.Protocol.MessageType
use bit_chat_pi.Mesh.Relay.Cache.{Seen, evict}

abbrev pub dispatch_dedup_ms : ℕ
dispatch_dedup_ms = 10_000

abbrev pub dispatch_dedup_max : ℕ
dispatch_dedup_max = 1_000

abbrev pub is_noise : Packet → Bool
is_noise pkt = pkt.type == MessageType.noise_encrypted || pkt.type == MessageType.noise_handshake

-- `none` is the OverflowError of `to_bytes`.
unfoldable pub dispatch_dedup_key : Packet → Option Bytes
dispatch_dedup_key pkt = do
  type ← pack 1 pkt.type
  last ← if is_noise pkt then some pkt.payload else pack 8 pkt.timestamp
  some (pkt.sender_id ++ (type ++ last))

-- An entry that is set goes to the end, and the oldest entries are dropped. A clock that has gone back
-- gives a negative difference, which is below the limit, as one that stops at 0 is.
unfoldable pub admit : Bytes → ℕ → Seen → Bool × Seen
admit key now seen = elim (get key seen) [
  | none ↦ (false, evict dispatch_dedup_max (seen ++ ((key, now) ∷ [])))
  | some t ↦
      if ltb (now - t) dispatch_dedup_ms
      then (true, seen)
      else (false, evict dispatch_dedup_max (remove key seen ++ ((key, now) ∷ [])))
]

pub record IsTable (seen : Seen) : Type 0 where
  pub distinct : IsDict seen
  pub bounded : length seen ≤ dispatch_dedup_max

-- The table after an entry is set.
appended-IsTable :
    (key : Bytes) (now : ℕ) (seen : Seen)
    → Fresh key seen
    → IsDict seen
    → IsTable (evict dispatch_dedup_max (seen ++ ((key, now) ∷ [])))
appended-IsTable key now seen f h = record {
  distinct =
      evict-IsDict dispatch_dedup_max (seen ++ ((key, now) ∷ [])) (append-IsDict key now seen f h);
  bounded = length-evict-le dispatch_dedup_max (seen ++ ((key, now) ∷ []));
}

appended-Kept :
    (key k : Bytes) (now t n : ℕ) (seen : Seen)
    → (k =? key) ≡ false
    → n + 1 < dispatch_dedup_max
    → Kept k t n seen
    → Kept k t (n + 1) (evict dispatch_dedup_max (seen ++ ((key, now) ∷ [])))
appended-Kept key k now t n seen other room kept =
    let more = behind-last-le key now k seen in
    let (entry, same) =
      evict-get dispatch_dedup_max k (seen ++ ((key, now) ∷ [])) (omega (arith, more, kept.near)) in
    record {
      entry = entry ∙ get-last_ne key now k seen other ∙ kept.entry;
      near = omega (arith, same, more, kept.near);
    }

pub admit-IsTable :
    (key : Bytes) (now : ℕ) (seen : Seen) → IsTable seen → IsTable (admit key now seen).1
unfolding admit
admit-IsTable key now seen h = elim (Option-cases (get key seen)) [
  | inl new ↦ rw (new, admit) (appended-IsTable key now seen new h.distinct)
  | inr (t, old) ↦ elim (Bool-cases (ltb (now - t) dispatch_dedup_ms)) [
    | inl recent ↦ rw (old, recent, admit) h
    | inr late ↦
        rw (old, late, admit)
          (appended-IsTable key now (remove key seen) (get-remove_self key seen h.distinct)
            (remove-IsDict key seen h.distinct))
  ]
]

-- The entry of a key that is new is the last one.
pub admit-Kept_new :
    (key : Bytes) (now : ℕ) (seen : Seen)
    → get key seen ≡ none
    → Kept key now 0 (admit key now seen).1
unfolding admit
admit-Kept_new key now seen new =
    let last = behind-last_self key now seen new in
    let (entry, same) =
      evict-get dispatch_dedup_max key (seen ++ ((key, now) ∷ [])) (omega (arith, last)) in
    rw (new, admit)
      (record { entry = entry ∙ get-last_self key now seen new; near = omega (arith, same, last) })

pub admit_new :
    (key : Bytes) (now : ℕ) (seen : Seen) → get key seen ≡ none → (admit key now seen).0 ≡ false
unfolding admit
admit_new key now seen new = rw (new, admit) refl

-- A key with an entry that is recent is refused, and the table stays.
pub admit_recent :
    (key : Bytes) (t now : ℕ) (seen : Seen)
    → get key seen ≡ some t
    → now - t < dispatch_dedup_ms
    → admit key now seen ≡ (true, seen)
unfolding admit
admit_recent key t now seen e h =
    let recent : ltb (now - t) dispatch_dedup_ms ≡ true = lt→ltb (now - t) dispatch_dedup_ms h in
    rw (e, recent, admit) refl

-- An entry has at most one more behind it after another key is looked up.
pub admit-Kept :
    (key k : Bytes) (now t n : ℕ) (seen : Seen)
    → now - t < dispatch_dedup_ms
    → n + 1 < dispatch_dedup_max
    → Kept k t n seen
    → Kept k t (n + 1) (admit key now seen).1
unfolding admit
admit-Kept key k now t n seen h room kept = elim (Bool-cases (k =? key)) [
  | inl same ↦
      let eq : k ≡ key = (list_beq_iff k key).0 same in
      let there : get key seen ≡ some t = ap (λ j. get j seen) (sym eq) ∙ kept.entry in
      rw (admit_recent key t now seen there h) (Kept-weaken k t n seen kept)
  | inr other ↦ elim (Option-cases (get key seen)) [
    | inl new ↦ rw (new, admit) (appended-Kept key k now t n seen other room kept)
    | inr (u, old) ↦ elim (Bool-cases (ltb (now - u) dispatch_dedup_ms)) [
      | inl recent ↦ rw (old, recent, admit) (Kept-weaken k t n seen kept)
      | inr late ↦
          rw (old, late, admit)
            (appended-Kept key k now t n (remove key seen) other room (record {
              entry = get-remove_ne key k seen other ∙ kept.entry;
              near = omega (arith, kept.near, behind-remove-le key k seen other);
            }))
    ]
  ]
]
