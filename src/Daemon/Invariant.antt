-- ===== src/Daemon/Invariant.antt =====
-- Every packet keeps the parts of the daemon well-formed.
use bit_chat_pi.Protocol.MessageType
use bit_chat_pi.Mesh.Fragments.Accounting.{IsValid}
use bit_chat_pi.Mesh.Session.Invariant.Packets.{handle_packet-IsManager}
use bit_chat_pi.Protocol.Packet.{Packet}
use bit_chat_pi.Mesh.Session.Invariant.Handlers.{cancel_pending_sends-IsManager}
use bit_chat_pi.Bytes.{Bytes}
use bit_chat_pi.Exec.{Exec, pure, ◌>>=◌}
use bit_chat_pi.Mesh.Fragments.Receive.{Outside}
use bit_chat_pi.Mesh.Fragments.Payload.{FragmentPayload}
use bit_chat_pi.Crypto.Noise.{NoiseLibrary}
use bit_chat_pi.Prelude.{Option, [], arith, none, some, suc, zero, ℕ, ◌==◌, ◌=?◌, list_eq}
use bit_chat_pi.Exec.Keeps.{Keeps, Keeps-bind, Keeps-if, Keeps-pure, Keeps-raise, keeps_rules}
use bit_chat_pi.Daemon.State.{
  DaemonEnvironment, FragmentEvent, Node, NodeAction, NodeRun, ask_system, fragment_event, perform,
  run_session,
}
use bit_chat_pi.Daemon.Repeats.{IsTable, admit-IsTable}
use bit_chat_pi.Daemon.Dispatch.{
  after_fragment, call_back, collect, dispatch_fragment, dispatch_packet, dispatch_whole,
  handle_fragment_of, is_dispatch_duplicate, look_up, own_peer_id, release_central, resume,
  route_packet, unless,
}
use bit_chat_pi.Mesh.Fragments.Caps.{handle_fragment-IsValid}
use bit_chat_pi.Mesh.Session.Invariant.{IsManager}
use bit_chat_pi.Mesh.Session.State.{Manager}
use bit_chat_pi.Mesh.Fragments.Manager.{completed, expired, rescue_saved, set_started}

module _ (env : DaemonEnvironment) (lib : NoiseLibrary) where
  -- The table of dispatched packets is bounded and its keys are distinct, and the fragment manager and the
  -- session manager are well-formed.
  pub record IsNode (n : Node lib) : Type 0 where
    pub table : IsTable n.seen_dispatch
    pub fragments : IsValid n.fragments
    pub session : IsManager lib n.session

  ask_system-IsNode : {A : Type 0} (f : ℕ → A) → Keeps IsNode (ask_system lib f)
  ask_system-IsNode f = record {
    at = λ n h. record { table = h.table; fragments = h.fragments; session = h.session };
  }

  perform-IsNode : (a : NodeAction) → Keeps IsNode (perform lib a)
  perform-IsNode a = record {
    at = λ n h. record { table = h.table; fragments = h.fragments; session = h.session };
  }

  emptied-IsManager : (s : Manager lib) → IsManager lib s → IsManager lib (record s { trace = [] })
  emptied-IsManager s h = ground arith

  run_session-IsNode :
      {A : Type 0} (m : Exec (Manager lib) A)
      → Keeps (IsManager lib) m
      → Keeps IsNode (run_session lib m)
  unfolding run_session
  run_session-IsNode m k = record {
    at = λ n h. record {
      table = h.table;
      fragments = h.fragments;
      session = emptied-IsManager (m n.session).1 (k.at n.session h.session);
    };
  }

  look_up-IsNode : (key : Bytes) (now : ℕ) → Keeps IsNode (look_up env lib key now)
  look_up-IsNode key now = record {
    at = λ n h. record {
      table = admit-IsTable key now n.seen_dispatch h.table;
      fragments = h.fragments;
      session = h.session;
    };
  }

  is_dispatch_duplicate-IsNode : (pkt : Packet) → Keeps IsNode (is_dispatch_duplicate env lib pkt)
  unfolding is_dispatch_duplicate
  is_dispatch_duplicate-IsNode pkt =
      search (keeps_rules, ask_system-IsNode, look_up-IsNode) depth 12

  release_central-IsNode : (f : Option FragmentPayload) → Keeps IsNode (release_central env lib f)
  unfolding release_central
  release_central-IsNode none = Keeps-pure tt
  release_central-IsNode (some f) = search (keeps_rules, perform-IsNode) depth 12

  call_back-IsNode : (e : FragmentEvent) → Keeps IsNode (call_back env lib e)
  unfolding call_back
  call_back-IsNode (completed s) =
      search
        (
          keeps_rules,
          perform-IsNode,
          run_session-IsNode,
          cancel_pending_sends-IsManager env.session lib,
        )
        depth 12
  call_back-IsNode (set_started s taken) = perform-IsNode (fragment_event (set_started s taken))
  call_back-IsNode (expired s missing received absent) =
      perform-IsNode (fragment_event (expired s missing received absent))
  call_back-IsNode rescue_saved = perform-IsNode (fragment_event rescue_saved)

  collect-IsNode : (o : Outside) (pkt : Packet) → Keeps IsNode (collect env lib o pkt)
  collect-IsNode o pkt = record {
    at = λ n h. record {
      table = h.table;
      fragments = handle_fragment-IsValid o pkt n.fragments h.fragments;
      session = h.session;
    };
  }

  handle_fragment_of-IsNode : (pkt : Packet) → Keeps IsNode (handle_fragment_of env lib pkt)
  unfolding handle_fragment_of
  handle_fragment_of-IsNode pkt =
      search (keeps_rules, ask_system-IsNode, collect-IsNode, call_back-IsNode) depth 12

  resume-IsNode : Keeps IsNode (resume env lib)
  unfolding resume
  resume-IsNode = search (keeps_rules, perform-IsNode) depth 12

  after_fragment-IsNode :
      (again : Packet → NodeRun lib (Unit {0})) (p : Option Packet)
      → ((p : Packet) → Keeps IsNode (again p))
      → Keeps IsNode (after_fragment env lib again p)
  unfolding after_fragment
  after_fragment-IsNode again none k = Keeps-pure tt
  after_fragment-IsNode again (some p) k = search (keeps_rules, k, resume-IsNode) depth 12

  dispatch_fragment-IsNode :
      (again : Packet → NodeRun lib (Unit {0})) (pkt : Packet)
      → ((p : Packet) → Keeps IsNode (again p))
      → Keeps IsNode (dispatch_fragment env lib again pkt)
  unfolding dispatch_fragment
  dispatch_fragment-IsNode again pkt k =
      search
        (
          keeps_rules,
          release_central-IsNode,
          handle_fragment_of-IsNode,
          (λ (p : Option Packet). after_fragment-IsNode again p k),
          perform-IsNode,
        )
        depth 12

  dispatch_whole-IsNode : (pkt : Packet) → Keeps IsNode (dispatch_whole env lib pkt)
  unfolding dispatch_whole
  dispatch_whole-IsNode pkt =
      search
        (keeps_rules, run_session-IsNode, handle_packet-IsManager env.session lib, perform-IsNode)
        depth 12

  route_packet-IsNode :
      (again : Packet → NodeRun lib (Unit {0})) (pkt : Packet)
      → ((p : Packet) → Keeps IsNode (again p))
      → Keeps IsNode (route_packet env lib again pkt)
  unfolding route_packet
  route_packet-IsNode again pkt k =
      Keeps-if (pkt.type == MessageType.fragment) (dispatch_fragment env lib again pkt)
        (dispatch_whole env lib pkt) (dispatch_fragment-IsNode again pkt k)
        (dispatch_whole-IsNode pkt)

  dispatch_packet-Keeps :
      (depth : ℕ) (pkt : Packet) → Keeps IsNode (dispatch_packet env lib depth pkt)
  unfolding dispatch_packet
  dispatch_packet-Keeps zero pkt = Keeps-raise
  dispatch_packet-Keeps (suc depth) pkt =
      let go = route_packet env lib (dispatch_packet env lib depth) pkt in
      let routed =
        route_packet-IsNode (dispatch_packet env lib depth) pkt (dispatch_packet-Keeps depth) in
      Keeps-if (pkt.sender_id =? own_peer_id env lib) (pure tt)
        (is_dispatch_duplicate env lib pkt >>= λ repeated. unless lib repeated go) (Keeps-pure tt)
        (Keeps-bind (is_dispatch_duplicate env lib pkt) (λ repeated. unless lib repeated go)
          (is_dispatch_duplicate-IsNode pkt)
          (λ repeated. Keeps-if repeated (pure tt) go (Keeps-pure tt) routed))

  -- Whatever packet comes, and also where its handling raises, the table of dispatched packets has at most
  -- 1,000 entries with distinct keys, the fragment manager keeps its counts and caps, and the session manager
  -- its dictionaries, if they did before.
  pub dispatch_packet-IsNode :
      (depth : ℕ) (pkt : Packet) (n : Node lib)
      → IsNode n
      → IsNode (dispatch_packet env lib depth pkt n).1
  dispatch_packet-IsNode depth pkt n h = (dispatch_packet-Keeps depth pkt).at n h
