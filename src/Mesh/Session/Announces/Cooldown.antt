-- ===== src/Mesh/Session/Announces/Cooldown.antt =====
-- A burst of announcements or sync requests of one peer is answered once at most.
use bit_chat_pi.Dict.Laws.{find_or-some}
use bit_chat_pi.Mesh.Session.Announces.{
  handle_announce, handle_request_sync, is_changed, note_announcement, note_nickname,
  note_noise_pub,
}
use bit_chat_pi.Dict.Keys.{get-set_self}
use bit_chat_pi.Prelude.{
  All, Bool-cases, List, Option, [], ap, arith, false, inl, inr, leb, none, refl, some, ℕ, ◌++◌,
  ◌+◌, ◌-◌, ◌<◌, ◌∷◌, ◌≡◌, ◌≤◌, ◌⊎◌, list_eq,
}
use bit_chat_pi.Bytes.{Bytes}
use bit_chat_pi.Text.{Text}
use bit_chat_pi.Exec.{modify, proceed, ◌>>◌}
use bit_chat_pi.Exec.Keeps.{Keeps, Keeps-pure, Leads, Leads-bind, keeps_rules}
use bit_chat_pi.Dict.{Dict, find_or, get, set}
use bit_chat_pi.Crypto.Noise.{NoiseLibrary}
use bit_chat_pi.Protocol.MessageType
use bit_chat_pi.Protocol.Packet.{Packet}
use bit_chat_pi.Protocol.Announce.{AnnouncePayload, decode_announce}
use bit_chat_pi.Mesh.Session.State.{
  Action, Environment, Event, Manager, act, ask, fragment_and_send, publish, save, send_packet,
}
use bit_chat_pi.Mesh.Session.Outgoing.{
  announce_cooldown_ms, echo_announce, make_announce, note_announced, send,
}
use bit_chat_pi.Mesh.Session.Packets.{dispatch, handle_packet, note_seen}
use bit_chat_pi.Text.Hex.{hex}

-- The packets among the actions.
abbrev pub packets_sent : List Action → ℕ
packets_sent [] = 0
packets_sent (send_packet p ∷ actions) = packets_sent actions + 1
packets_sent (fragment_and_send p ∷ actions) = packets_sent actions + 1
packets_sent (publish e ∷ actions) = packets_sent actions
packets_sent (save path contents ∷ actions) = packets_sent actions

packets_sent-append :
    (xs ys : List Action) → packets_sent (xs ++ ys) ≡ packets_sent xs + packets_sent ys
packets_sent-append [] ys = omega arith
packets_sent-append (send_packet p ∷ xs) ys = omega (arith, packets_sent-append xs ys)
packets_sent-append (fragment_and_send p ∷ xs) ys = omega (arith, packets_sent-append xs ys)
packets_sent-append (publish e ∷ xs) ys = packets_sent-append xs ys
packets_sent-append (save path contents ∷ xs) ys = packets_sent-append xs ys

module _ (env : Environment) (lib : NoiseLibrary) where
  -- So many packets sent, and these times of announcements.
  abbrev Calm : ℕ → Dict Text ℕ → Manager lib → Type 0
  Calm n announced s = (packets_sent s.trace ≡ n) × (s.last_announced ≡ announced)

  module _ (n : ℕ) (announced : Dict Text ℕ) where
    ask-Calm : {A : Type 0} (f : ℕ → A) → Keeps (Calm n announced) (ask lib f)
    ask-Calm f = record { at = λ s h. h }

    publish-Calm : (e : Event) → Keeps (Calm n announced) (act lib (publish e))
    publish-Calm e = record {
      at = λ s h. (omega (arith, packets_sent-append s.trace (publish e ∷ []), h.0), h.1);
    }

    set_peers-Calm :
        (k v : Text)
        → Keeps
            (Calm n announced)
            (modify (λ (s : Manager lib). record s { peers = set k v s.peers }))
    set_peers-Calm k v = record { at = λ s h. h }

    make_announce-Calm : Keeps (Calm n announced) (make_announce env lib)
    unfolding make_announce
    make_announce-Calm = search (keeps_rules, ask-Calm) depth 12

    note_nickname-Calm : (k nick : Text) → Keeps (Calm n announced) (note_nickname env lib k nick)
    unfolding note_nickname
    note_nickname-Calm k nick =
        search (keeps_rules, ask-Calm, publish-Calm, set_peers-Calm) depth 12

    note_noise_pub-Calm :
        (k : Text) (v : Bytes) → Keeps (Calm n announced) (note_noise_pub env lib k v)
    unfolding note_noise_pub
    note_noise_pub-Calm k v = record {
      at = λ s h. elim (Bool-cases (is_changed (get k s.peer_noise_pub) v)) [
        | inl changed ↦ rw changed h
        | inr same ↦ rw same h
      ];
    }

    note_announcement-Calm :
        (k : Text) (ann : Option AnnouncePayload)
        → Keeps (Calm n announced) (note_announcement env lib k ann)
    unfolding note_announcement
    note_announcement-Calm k none = Keeps-pure tt
    note_announcement-Calm k (some ann) =
        search (keeps_rules, note_nickname-Calm, note_noise_pub-Calm) depth 12

    note_seen-Calm : (k : Text) → Keeps (Calm n announced) (note_seen env lib k)
    unfolding note_seen
    note_seen-Calm k = record { at = λ s h. h }

    -- Nothing was sent, or one announcement, whose time is noted.
    abbrev Echoed : Text → Manager lib → Type 0
    Echoed k s =
        Calm n announced s
        ⊎ ((packets_sent s.trace ≡ n + 1)
            × ((i : ℕ) × (get k s.last_announced ≡ some (env.clock i))))

    echo_with :
        (k : Text) (i : ℕ) (r : Option Packet) (s : Manager lib)
        → Calm n announced s
        → Echoed k (proceed r (λ p. send env lib p >> note_announced env lib k (env.clock i)) s).1
    unfolding send note_announced
    echo_with k i none s h = inl h
    echo_with k i (some p) s h = inr (
      omega (arith, packets_sent-append s.trace (send_packet p ∷ []), h.0),
      (i, get-set_self k (env.clock i) s.last_announced),
    )

    echo_announce-Echoed :
        (k : Text) → Leads (Calm n announced) (Echoed k) (echo_announce env lib k)
    unfolding echo_announce
    echo_announce-Echoed k = record {
      at = λ s h.
          elim (Bool-cases
            (leb announce_cooldown_ms (env.clock s.calls - find_or k 0 s.last_announced))) [
              | inl due ↦
                  let s1 : Manager lib = record s { calls = s.calls + 1 } in
                  rw due (
                    echo_with k s.calls (make_announce env lib s1).0 (make_announce env lib s1).1
                      (make_announce-Calm.at s1 h))
              | inr early ↦ rw early (inl h)
            ];
    }

    -- An announcement less than ten seconds after the last one is not sent.
    echo_announce-early :
        (k : Text) (s : Manager lib)
        → env.clock s.calls - find_or k 0 announced < announce_cooldown_ms
        → Calm n announced s
        → Calm n announced (echo_announce env lib k s).1
    unfolding echo_announce
    echo_announce-early k s early h =
        let last = ap (find_or k 0) h.1 in
        let no : leb announce_cooldown_ms (env.clock s.calls - find_or k 0 s.last_announced)
            ≡ false =
          ground (arith, last) in
        rw no h

  -- An announcement or a sync request of the peer.
  pub record Asks (peer_hex : Text) (pkt : Packet) : Type 0 where
    pub from : hex pkt.sender_id ≡ peer_hex
    pub kind : (pkt.type ≡ MessageType.announce) ⊎ (pkt.type ≡ MessageType.request_sync)

  module _ (n : ℕ) (announced : Dict Text ℕ) where
    -- The handlers with the echo as their last step.
    dispatch_ends_with_echo :
        {Q : Manager lib → Type 0} (k : Text) (pkt : Packet)
        → ((s : Manager lib) → Calm n announced s → Q s)
        → Asks k pkt
        → Leads (Calm n announced) Q (echo_announce env lib k)
        → Leads (Calm n announced) Q (dispatch env lib pkt k)
    unfolding dispatch handle_announce handle_request_sync
    dispatch_ends_with_echo k pkt weak asks echo = elim asks.kind [
      | inl e ↦ rw e (
          Leads-bind (note_announcement env lib k (decode_announce pkt.payload))
            (λ _. echo_announce env lib k) weak
            (note_announcement-Calm n announced k (decode_announce pkt.payload)) (λ _. echo))
      | inr e ↦ rw e echo
    ]

    handle_packet_ends_with_echo :
        {Q : Manager lib → Type 0} (k : Text) (pkt : Packet)
        → ((s : Manager lib) → Calm n announced s → Q s)
        → Asks k pkt
        → Leads (Calm n announced) Q (echo_announce env lib k)
        → Leads (Calm n announced) Q (handle_packet env lib pkt)
    unfolding handle_packet
    handle_packet_ends_with_echo k pkt weak asks echo = rw asks.from (
        Leads-bind (note_seen env lib k) (λ _. dispatch env lib pkt k) weak
          (note_seen-Calm n announced k) (λ _. dispatch_ends_with_echo k pkt weak asks echo))

  -- The states after packets that are handled one after the other; one that raises changes what it did.
  abbrev pub after_all : List Packet → Manager lib → Manager lib
  after_all [] s = s
  after_all (pkt ∷ pkts) s = after_all pkts (handle_packet env lib pkt s).1

  after_all_early :
      (n : ℕ) (announced : Dict Text ℕ) (k : Text) (pkts : List Packet) (s : Manager lib)
      → ((i : ℕ) → env.clock i - find_or k 0 announced < announce_cooldown_ms)
      → All (Asks k) pkts
      → Calm n announced s
      → Calm n announced (after_all pkts s)
  after_all_early n announced k [] s early asks h = h
  after_all_early n announced k (pkt ∷ pkts) s early (asks, rest) h =
      let once =
        handle_packet_ends_with_echo n announced k pkt (λ t x. x) asks
          (record { at = λ t x. echo_announce-early n announced k t (early t.calls) x }) in
      after_all_early n announced k pkts (handle_packet env lib pkt s).1 early rest (once.at s h)

  -- However many announcements and sync requests a peer sends within ten seconds, the node sends at most one
  -- packet in answer to them.
  pub packets_sent-after_all :
      (from_ms : ℕ) (k : Text) (pkts : List Packet) (s : Manager lib)
      → ((i : ℕ) → (from_ms ≤ env.clock i) × (env.clock i < from_ms + announce_cooldown_ms))
      → All (Asks k) pkts
      → packets_sent (after_all pkts s).trace ≤ packets_sent s.trace + 1
  packets_sent-after_all from_ms k [] s window asks = omega arith
  packets_sent-after_all from_ms k (pkt ∷ pkts) s window (asks, rest) =
      let n = packets_sent s.trace in
      let announced = s.last_announced in
      let s' = (handle_packet env lib pkt s).1 in
      let once : Echoed n announced k s' =
        (handle_packet_ends_with_echo n announced k pkt (λ t x. inl x) asks
            (echo_announce-Echoed n announced k)).at
          s (refl, refl) in
      elim once [
        | inl calm ↦ omega (arith, packets_sent-after_all from_ms k pkts s' window rest, calm.0)
        | inr (sent, (i, at)) ↦
            let last = find_or-some k 0 (env.clock i) s'.last_announced at in
            let calm =
              after_all_early (packets_sent s'.trace) s'.last_announced k pkts s'
                (λ j. omega (arith, window i, window j, last)) rest (refl, refl) in
            omega (arith, calm.0, sent)
      ]
