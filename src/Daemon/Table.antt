-- ===== src/Daemon/Table.antt =====
-- What the dispatch of a packet does to the table of dispatched packets: it enters at most one packet.
use bit_chat_pi.Mesh.Session.State
use bit_chat_pi.Bytes.{Bytes}
use bit_chat_pi.Daemon.Repeats.{admit, dispatch_dedup_key}
use bit_chat_pi.Mesh.Fragments.Manager.{completed, expired, rescue_saved, set_started}
use bit_chat_pi.Text.Hex.{hex}
use bit_chat_pi.Mesh.Fragments.Payload.{FragmentPayload, decode_fragment_payload}
use bit_chat_pi.Protocol.Packet.{Packet}
use bit_chat_pi.Exec.{Exec, lift, pure, ◌>>=◌, ◌>>◌}
use bit_chat_pi.Mesh.Fragments.Receive.{Outside}
use bit_chat_pi.Mesh.Relay.Cache.{Seen}
use bit_chat_pi.Crypto.Noise.{NoiseLibrary}
use bit_chat_pi.Prelude.{
  Bool-cases, Option, false, inl, inr, none, some, suc, zero, ℕ, ◌==◌, ◌=?◌, ◌≡◌, list_eq,
}
use bit_chat_pi.Protocol.MessageType
use bit_chat_pi.Daemon.State.{
  DaemonEnvironment, FragmentEvent, Node, NodeAction, NodeRun, ask_system, fragment_event, perform,
  run_session, schedule_relay,
}
use bit_chat_pi.Daemon.Dispatch.{
  after_fragment, call_back, collect, dispatch_fragment, dispatch_packet, dispatch_whole,
  handle_fragment_of, is_dispatch_duplicate, is_recipient, look_up, own_peer_id, release_central,
  resume, route_packet, unless,
}
use bit_chat_pi.Exec.Keeps.{Keeps, Keeps-if, Keeps-lift, Keeps-pure, Leads, Leads-bind, keeps_rules}

module _ (env : DaemonEnvironment) (lib : NoiseLibrary) where
  -- The table of a node has a property.
  pub record HasTable (P : Seen → Type 0) (n : Node lib) : Type 0 where
    pub holds : P n.seen_dispatch

  -- A stronger property.
  HasTable-weaken :
      {P Q : Seen → Type 0}
      → ((seen : Seen) → P seen → Q seen)
      → (n : Node lib) → HasTable P n
      → HasTable Q n
  HasTable-weaken w n h = record { holds = w n.seen_dispatch h.holds }

  module _ (P : Seen → Type 0) where
    ask_system-HasTable : {A : Type 0} (f : ℕ → A) → Keeps (HasTable P) (ask_system lib f)
    ask_system-HasTable f = record { at = λ n h. record { holds = h.holds } }

    perform-HasTable : (a : NodeAction) → Keeps (HasTable P) (perform lib a)
    perform-HasTable a = record { at = λ n h. record { holds = h.holds } }

    run_session-HasTable :
        {A : Type 0} (m : Exec (State.Manager lib) A) → Keeps (HasTable P) (run_session lib m)
    unfolding run_session
    run_session-HasTable m = record { at = λ n h. record { holds = h.holds } }

    collect-HasTable : (o : Outside) (pkt : Packet) → Keeps (HasTable P) (collect env lib o pkt)
    collect-HasTable o pkt = record { at = λ n h. record { holds = h.holds } }

    -- Handling a packet that is no fragment leaves the table as it is.
    pub dispatch_whole-HasTable : (pkt : Packet) → Keeps (HasTable P) (dispatch_whole env lib pkt)
    unfolding dispatch_whole
    dispatch_whole-HasTable pkt =
        search (keeps_rules, run_session-HasTable, perform-HasTable) depth 12

    pub route_packet-HasTable :
        (again : Packet → NodeRun lib (Unit {0})) (pkt : Packet)
        → (pkt.type == MessageType.fragment) ≡ false
        → Keeps (HasTable P) (route_packet env lib again pkt)
    unfolding route_packet
    route_packet-HasTable again pkt whole = rw whole (dispatch_whole-HasTable pkt)

    release_central-HasTable :
        (f : Option FragmentPayload) → Keeps (HasTable P) (release_central env lib f)
    unfolding release_central
    release_central-HasTable none = Keeps-pure tt
    release_central-HasTable (some f) = search (keeps_rules, perform-HasTable) depth 12

    call_back-HasTable : (e : FragmentEvent) → Keeps (HasTable P) (call_back env lib e)
    unfolding call_back
    call_back-HasTable (completed s) =
        search (keeps_rules, perform-HasTable, run_session-HasTable) depth 12
    call_back-HasTable (set_started s taken) =
        perform-HasTable (fragment_event (set_started s taken))
    call_back-HasTable (expired s missing received absent) =
        perform-HasTable (fragment_event (expired s missing received absent))
    call_back-HasTable rescue_saved = perform-HasTable (fragment_event rescue_saved)

    handle_fragment_of-HasTable :
        (pkt : Packet) → Keeps (HasTable P) (handle_fragment_of env lib pkt)
    unfolding handle_fragment_of
    handle_fragment_of-HasTable pkt =
        search (keeps_rules, ask_system-HasTable, collect-HasTable, call_back-HasTable) depth 12

    resume-HasTable : Keeps (HasTable P) (resume env lib)
    unfolding resume
    resume-HasTable = search (keeps_rules, perform-HasTable) depth 12

  module _ {P Q : Seen → Type 0} (w : (seen : Seen) → P seen → Q seen) where
    stay-Leads : {A : Type 0} (a : A) → Leads (HasTable P) (HasTable Q) (pure a)
    stay-Leads a = record { at = HasTable-weaken w }

    after_fragment-Leads :
        (again : Packet → NodeRun lib (Unit {0})) (p : Option Packet)
        → ((p : Packet) → Leads (HasTable P) (HasTable Q) (again p))
        → Leads (HasTable P) (HasTable Q) (after_fragment env lib again p)
    unfolding after_fragment
    after_fragment-Leads again none k = stay-Leads tt
    after_fragment-Leads again (some p) k =
        Leads-bind (again p) (λ _. resume env lib) (λ n h. h) (k p) (λ _. resume-HasTable Q)

    dispatch_fragment-Leads :
        (again : Packet → NodeRun lib (Unit {0})) (pkt : Packet)
        → ((p : Packet) → Leads (HasTable P) (HasTable Q) (again p))
        → Leads (HasTable P) (HasTable Q) (dispatch_fragment env lib again pkt)
    unfolding dispatch_fragment
    dispatch_fragment-Leads again pkt k =
        let relay = perform lib (schedule_relay pkt (hex pkt.sender_id)) in
        let last : NodeRun lib (Unit {0}) =
          unless lib (is_recipient (own_peer_id env lib) pkt.recipient_id) relay in
        let final : Keeps (HasTable Q) last = search (keeps_rules, perform-HasTable) depth 12 in
        Leads-bind (release_central env lib (decode_fragment_payload pkt.payload))
          (λ _. handle_fragment_of env lib pkt >>= λ p. after_fragment env lib again p >> last)
          (HasTable-weaken w) (release_central-HasTable P (decode_fragment_payload pkt.payload))
          (λ _.
            Leads-bind (handle_fragment_of env lib pkt)
              (λ p. after_fragment env lib again p >> last) (HasTable-weaken w)
              (handle_fragment_of-HasTable P pkt)
              (λ p.
                Leads-bind (after_fragment env lib again p) (λ _. last) (λ n h. h)
                  (after_fragment-Leads again p k) (λ _. final)))

  -- What looking a packet up does to the table leads from one property to the other.
  abbrev pub Admits : (Seen → Type 0) → (Seen → Type 0) → Type 0
  Admits P Q =
      (key : Bytes) (calls : ℕ) (seen : Seen) → P seen → Q (admit key (env.now_ms calls) seen).1

  module _ {P Q : Seen → Type 0} (w : (seen : Seen) → P seen → Q seen) (enters : Admits P Q) where
    look_up-Leads :
        (key : Bytes)
        → Leads
            (HasTable P)
            (HasTable Q)
            (ask_system lib env.now_ms >>= λ now. look_up env lib key now)
    look_up-Leads key = record {
      at = λ n h. record { holds = enters key n.calls n.seen_dispatch h.holds };
    }

    is_dispatch_duplicate-Leads :
        (pkt : Packet)
        → (pkt.type == MessageType.fragment) ≡ false
        → Leads (HasTable P) (HasTable Q) (is_dispatch_duplicate env lib pkt)
    unfolding is_dispatch_duplicate
    is_dispatch_duplicate-Leads pkt whole = rw whole (
        Leads-bind (lift (dispatch_dedup_key pkt))
          (λ key. ask_system lib env.now_ms >>= λ now. look_up env lib key now) (HasTable-weaken w)
          (Keeps-lift (dispatch_dedup_key pkt)) look_up-Leads)

    -- However deep the fragments are nested, a call enters one packet at most.
    pub dispatch_packet-Leads :
        (depth : ℕ) (pkt : Packet)
        → Leads (HasTable P) (HasTable Q) (dispatch_packet env lib depth pkt)
    unfolding dispatch_packet is_dispatch_duplicate route_packet
    dispatch_packet-Leads zero pkt = record { at = HasTable-weaken w }
    dispatch_packet-Leads (suc depth) pkt =
        elim (Bool-cases (pkt.sender_id =? own_peer_id env lib)) [
          | inl own ↦ rw own (stay-Leads w tt)
          | inr other ↦ elim (Bool-cases (pkt.type == MessageType.fragment)) [
            | inl part ↦
                rw (other, part)
                  (dispatch_fragment-Leads w (dispatch_packet env lib depth) pkt
                    (dispatch_packet-Leads depth))
            | inr whole ↦
                let go = route_packet env lib (dispatch_packet env lib depth) pkt in
                rw other (
                  Leads-bind (is_dispatch_duplicate env lib pkt)
                    (λ repeated. unless lib repeated go) (λ n h. h)
                    (is_dispatch_duplicate-Leads pkt whole)
                    (λ repeated.
                      Keeps-if repeated (pure tt) go (Keeps-pure tt)
                        (route_packet-HasTable Q (dispatch_packet env lib depth) pkt whole)))
          ]
        ]
