-- ===== src/Daemon/State.antt =====
-- What server/daemon.py keeps in globals, and what it has done.
use bit_chat_pi.Bytes.{Bytes}
use bit_chat_pi.Mesh.Session.State
use bit_chat_pi.Mesh.Fragments.Manager.{Event, Manager}
use bit_chat_pi.Text.{Text}
use bit_chat_pi.Exec.{Exec}
use bit_chat_pi.Protocol.Packet.{Packet}
use bit_chat_pi.Crypto.Noise.{NoiseLibrary}
use bit_chat_pi.Prelude.{Bool, List, [], map, some, ℕ, ◌++◌, ◌+◌, ◌∷◌}
use bit_chat_pi.Mesh.Relay.Cache.{Seen}
use bit_chat_pi.Mesh.Session.State.{Action, Environment}
use bit_chat_pi.Mesh.Fragments.Receive.{Outside}

-- What the daemon asks of the system: `int(time.time() * 1000)`, and what the fragment manager finds
-- outside, in turn; the answer of the scanner to `connected_count > 0`, and `os.urandom`.
pub record DaemonEnvironment : Type 0 where
  pub session : Environment
  pub now_ms : ℕ → ℕ
  pub outside : ℕ → Outside
  pub is_connected : ℕ → Bool
  pub urandom : ℕ → Bytes

-- An event of the fragment manager.
abbrev pub FragmentEvent : Type 0
FragmentEvent = Event

-- What the parts hand to the daemon, and the calls of the relay engine, the scanner and the advertiser.
pub data NodeAction : Type 0 where
  session_action : State.Action → NodeAction
  fragment_event : FragmentEvent → NodeAction
  gatt_send scanner_send : Bytes → NodeAction
  schedule_relay : Packet → Text → NodeAction
  disconnect_all_central pause_advertising resume_advertising : NodeAction

module _ (lib : NoiseLibrary) where
  pub record Node : Type 0 where
    pub seen_dispatch : Seen
    pub fragments : Manager
    pub session : State.Manager lib
    pub calls : ℕ
    pub trace : List NodeAction

  abbrev pub NodeRun : Type 0 → Type 0
  NodeRun A = Exec Node A

  abbrev pub ask_system : {A : Type 0} → (ℕ → A) → NodeRun A
  ask_system f n = (some (f n.calls), record n { calls = n.calls + 1 })

  abbrev pub perform : NodeAction → NodeRun (Unit {0})
  perform a n = (some tt, record n { trace = n.trace ++ a ∷ [] })

  -- A method of the session manager; what it does joins what the daemon has done, so that the trace of the
  -- session manager is empty before the call.
  unfoldable pub run_session : {A : Type 0} → Exec (State.Manager lib) A → NodeRun A
  run_session m n =
      let (r, s) = m n.session in
      (
        r,
        record n {
          session = record s { trace = [] };
          trace = n.trace ++ map session_action s.trace;
        },
      )
