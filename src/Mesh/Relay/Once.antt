-- ===== src/Mesh/Relay/Once.antt =====
-- A packet is not relayed twice.
use bit_chat_pi.Prelude.{
  Bool-cases, List, [], ap, arith, false, inl, inr, length, list_beq_iff, refl, some, subst, sym,
  true, ℕ, ◌++◌, ◌+◌, ◌-◌, ◌<◌, ◌=?◌, ◌∙◌, ◌∷◌, ◌≡◌, ◌≢◌, ◌≤◌, list_eq,
}
use bit_chat_pi.Bytes.{Bytes}
use bit_chat_pi.Dict.{remove}
use bit_chat_pi.Mesh.Relay.Cache.{Seen, is_seen, mark_seen, packet_key}
use bit_chat_pi.Dict.Keys.{IsDict, get-remove_ne, get-remove_self}
use bit_chat_pi.Text.{Text}
use bit_chat_pi.Protocol.Packet.{Packet, with_ttl}
use bit_chat_pi.Protocol.Constants.{max_processed_messages, message_timeout_ms}
use bit_chat_pi.Mesh.Relay.Engine.{Action, Engine, World, handle_relay, relay_new}
use bit_chat_pi.Mesh.Relay.Order.{
  Kept, behind, behind-last-le, behind-last_self, behind-remove-le, evict-get, get-last_ne,
  get-last_self,
}
use bit_chat_pi.Mesh.Relay.Dedup.{IsValid, engine_after, handle_relay_cases, is_seen-IsDict}

pub mark_seen-Kept :
    (now : ℕ) (k : Bytes) (seen : Seen) → IsDict seen → Kept k now 0 (mark_seen now k seen)
unfolding mark_seen
mark_seen-Kept now k seen h =
    let d = remove k seen in
    let fresh = get-remove_self k seen h in
    let zero_behind = behind-last_self k now d fresh in
    let (entry, near) =
      evict-get max_processed_messages k (d ++ ((k, now) ∷ [])) (omega (arith, zero_behind)) in
    record { entry = entry ∙ get-last_self k now d fresh; near = omega (arith, near, zero_behind) }

pub Kept-weaken : (k : Bytes) (ts n : ℕ) (seen : Seen) → Kept k ts n seen → Kept k ts (n + 1) seen
Kept-weaken k ts n seen kept = record { entry = kept.entry; near = omega (arith, kept.near) }

mark_seen-Kept_ne :
    (now : ℕ) (k j : Bytes) (ts n : ℕ) (seen : Seen)
    → (k =? j) ≡ false
    → n + 1 < max_processed_messages
    → Kept k ts n seen
    → Kept k ts (n + 1) (mark_seen now j seen)
unfolding mark_seen
mark_seen-Kept_ne now k j ts n seen other room kept =
    let d = remove j seen in
    let less = behind-remove-le j k seen other in
    let more = behind-last-le j now k d in
    let near : behind k (d ++ ((j, now) ∷ [])) ≤ n + 1 = omega (arith, less, more, kept.near) in
    let (entry, same) = evict-get max_processed_messages k (d ++ ((j, now) ∷ [])) (omega arith) in
    record {
      entry = entry ∙ get-last_ne j now k d other ∙ get-remove_ne j k seen other ∙ kept.entry;
      near = omega (arith, same, near);
    }

is_seen-Kept_ne :
    (now : ℕ) (k j : Bytes) (ts n : ℕ) (seen : Seen)
    → (k =? j) ≡ false
    → Kept k ts n seen
    → Kept k ts n (is_seen now j seen).0
unfolding is_seen
is_seen-Kept_ne now k j ts n seen other kept =
    ground
      (arith, kept.entry, kept.near, behind-remove-le j k seen other, get-remove_ne j k seen other)

is_seen-Kept :
    (now : ℕ) (k : Bytes) (ts n : ℕ) (seen : Seen)
    → Kept k ts n seen
    → now - ts < message_timeout_ms
    → is_seen now k seen ≡ (seen, true)
unfolding is_seen
is_seen-Kept now k ts n seen kept recent = ground (arith, kept.entry)

-- A call with its packet and the world it meets.
pub record Call : Type 0 where
  pub world : World
  pub packet : Packet
  pub from_peer_id : Text

unfoldable pub run : Engine → List Call → Engine
run e [] = e
run e (c ∷ cs) = run (engine_after e (handle_relay e c.world c.packet c.from_peer_id)) cs

module _ (ts : ℕ) where
  -- A call that comes before an entry made at `ts` is out of date.
  abbrev pub InTime : World → Type 0
  InTime w = w.check_time - ts < message_timeout_ms

  abbrev pub AllInTime : List Call → Type 0
  AllInTime [] = Unit
  AllInTime (c ∷ cs) = InTime c.world × AllInTime cs

module _ (k : Bytes) (ts : ℕ) where
  relay_new_again :
      (e : Engine) (w : World) (p : Packet) (from_peer_id : Text) (n : ℕ)
      → InTime ts w
      → Kept k ts n e.seen
      → relay_new e w k p from_peer_id ≡ (e, [])
  unfolding relay_new
  relay_new_again e w p from_peer_id n h kept =
      rw (is_seen-Kept w.check_time k ts n e.seen kept h, relay_new)

  relay_new-Kept :
      (e : Engine) (w : World) (key : Bytes) (p : Packet) (from_peer_id : Text) (n : ℕ)
      → InTime ts w
      → n + 1 < max_processed_messages
      → Kept k ts n e.seen
      → Kept k ts (n + 1) (relay_new e w key p from_peer_id).0.seen
  relay_new-Kept e w key p from_peer_id n h room kept = elim (Bool-cases (k =? key)) [
    | inl same ↦
        let e' = (list_beq_iff k key).0 same in
        subst (λ x. Kept k ts (n + 1) (relay_new e w x p from_peer_id).0.seen) e'
          (rw (relay_new_again e w p from_peer_id n h kept) (Kept-weaken k ts n e.seen kept))
    | inr other ↦
        unfold relay_new in
        let kept' = is_seen-Kept_ne w.check_time k key ts n e.seen other kept in
        let more =
          mark_seen-Kept_ne w.mark_time k key ts n (is_seen w.check_time key e.seen).0 other room
            kept' in
        let same' = Kept-weaken k ts n (is_seen w.check_time key e.seen).0 kept' in
        ground (arith, more, same')
  ]

  handle_relay-Kept :
      (e : Engine) (w : World) (p : Packet) (from_peer_id : Text) (n : ℕ)
      → InTime ts w
      → n + 1 < max_processed_messages
      → Kept k ts n e.seen
      → Kept k ts (n + 1) (engine_after e (handle_relay e w p from_peer_id)).seen
  handle_relay-Kept e w p from_peer_id n h room kept =
      let still = Kept-weaken k ts n e.seen kept in
      handle_relay_cases (λ r. Kept k ts (n + 1) (engine_after e r).seen) e w p from_peer_id still
        (λ _. still)
        λ key _. relay_new-Kept e w key (with_ttl p (p.ttl - 1)) from_peer_id n h room kept

  run-Kept :
      (e : Engine) (cs : List Call) (n : ℕ)
      → AllInTime ts cs
      → n + length cs < max_processed_messages
      → Kept k ts n e.seen
      → Kept k ts (n + length cs) (run e cs).seen
  unfolding run
  run-Kept e [] n h room kept = subst (λ m. Kept k ts m e.seen) (omega arith) kept
  run-Kept e (c ∷ cs) n (h, hs) room kept =
      subst
        (λ m.
          Kept k ts m
            (run (engine_after e (handle_relay e c.world c.packet c.from_peer_id)) cs).seen)
        (omega arith)
        (run-Kept (engine_after e (handle_relay e c.world c.packet c.from_peer_id)) cs (n + 1) hs
          (omega (arith, room))
          (handle_relay-Kept e c.world c.packet c.from_peer_id n h (omega (arith, room)) kept))

  handle_relay_again :
      (e : Engine) (w : World) (p : Packet) (from_peer_id : Text) (n : ℕ)
      → packet_key p ≡ some k
      → InTime ts w
      → Kept k ts n e.seen
      → handle_relay e w p from_peer_id ≡ some (e, [])
  handle_relay_again e w p from_peer_id n same h kept =
      handle_relay_cases (λ r. r ≡ some (e, [])) e w p from_peer_id refl (λ e'. cc)
        λ key e'.
          let eq : k ≡ key = cc in
          ap some (
            subst (λ x. relay_new e w x (with_ttl p (p.ttl - 1)) from_peer_id ≡ (e, [])) eq
              (relay_new_again e w (with_ttl p (p.ttl - 1)) from_peer_id n h kept))

relay_new-Kept_first :
    (e : Engine) (w : World) (key : Bytes) (p : Packet) (from_peer_id : Text)
    → IsDict e.seen
    → (relay_new e w key p from_peer_id).1 ≢ []
    → Kept key w.mark_time 0 (relay_new e w key p from_peer_id).0.seen
unfolding relay_new
relay_new-Kept_first e w key p from_peer_id h =
    let seen = (is_seen w.check_time key e.seen).0 in
    let kept = mark_seen-Kept w.mark_time key seen (is_seen-IsDict w.check_time key e.seen h) in
    elim (Bool-cases (is_seen w.check_time key e.seen).1) [
      | inl old ↦ λ act. absurd (act (rw old))
      | inr new ↦ λ act. rw new kept
    ]

-- What a call that did anything leaves in the cache.
handle_relay-Kept_first :
    (e : Engine) (w : World) (p : Packet) (from_peer_id : Text) (e' : Engine) (acts : List Action)
    → IsDict e.seen
    → handle_relay e w p from_peer_id ≡ some (e', acts)
    → acts ≢ []
    → (key : Bytes) × (packet_key p ≡ some key) × Kept key w.mark_time 0 e'.seen
handle_relay-Kept_first e w p from_peer_id e' acts h did act =
    handle_relay_cases
      (λ r.
        r ≡ some (e', acts)
        → (key : Bytes) × (packet_key p ≡ some key) × Kept key w.mark_time 0 e'.seen)
      e w p from_peer_id (λ d. absurd (act cc)) (λ _ d. cc)
      (λ key k d.
        let eq : relay_new e w key (with_ttl p (p.ttl - 1)) from_peer_id ≡ (e', acts) = cc in
        (
          key,
          k,
          subst (λ x. Kept key w.mark_time 0 x.0.seen) eq
              (relay_new-Kept_first e w key (with_ttl p (p.ttl - 1)) from_peer_id h
                (λ no. act (sym (ap (λ x. x.1) eq) ∙ no))),
        ))
      did

-- A packet that was relayed is not relayed again: when a call for `p` did anything, then after any
-- fewer than 10,000 calls, a packet with the same key changes and sends nothing, as long as all the
-- calls come within the five minutes that an entry counts.
pub relay_once :
    (e : Engine) (w : World) (p : Packet) (from_peer_id : Text) (e' : Engine) (acts : List Action)
    (cs : List Call) (again : Call)
    → IsValid e
    → handle_relay e w p from_peer_id ≡ some (e', acts)
    → acts ≢ []
    → packet_key again.packet ≡ packet_key p
    → AllInTime w.mark_time (again ∷ cs)
    → length cs < max_processed_messages
    → handle_relay (run e' cs) again.world again.packet again.from_peer_id ≡ some (run e' cs, [])
relay_once e w p from_peer_id e' acts cs again v did some_act same (in_time, all) few =
    let (k, keyed, kept) =
      handle_relay-Kept_first e w p from_peer_id e' acts v.distinct did some_act in
    let still = run-Kept k w.mark_time e' cs 0 all (omega (arith, few)) kept in
    handle_relay_again k w.mark_time (run e' cs) again.world again.packet again.from_peer_id
      (0 + length cs) (same ∙ keyed) in_time still
