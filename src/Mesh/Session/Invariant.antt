-- ===== src/Mesh/Session/Invariant.antt =====
-- The invariant of the session manager: the keys of every dictionary are distinct, and the messages of
-- a handshake are kept only for a peer that has a session.
pub mod Sessions
pub mod Handlers
pub mod Handshakes
pub mod Incoming
pub mod Packets
pub mod Reach
use bit_chat_pi.Prelude.{[], arith, is_some, none, true, ℕ, ◌++◌, ◌∷◌, ◌≡◌, list_eq}
use bit_chat_pi.Text.{Text}
use bit_chat_pi.Exec.{modify}
use bit_chat_pi.Exec.Keeps.{Keeps}
use bit_chat_pi.Dict.{find_or, get, remove, set}
use bit_chat_pi.Dict.Keys.{remove-IsDict, set-IsDict}
use bit_chat_pi.Crypto.Noise.{NoiseLibrary}
use bit_chat_pi.Mesh.Session.State.{Action, Manager, PendingSend, act, ask}
use bit_chat_pi.Mesh.Session.Announces.Forgets.{AllDicts}

module _ (lib : NoiseLibrary) where
  pub record IsManager (s : Manager lib) : Type 0 where
    pub dicts : AllDicts lib s
    pub msg1_of_session : (k : Text) → get k s.sessions ≡ none → get k s.last_msg1 ≡ none
    pub msg2_of_session : (k : Text) → get k s.sessions ≡ none → get k s.pending_msg2 ≡ none

  -- The invariant, and a session of the peer.
  pub record WithSession (peer_hex : Text) (s : Manager lib) : Type 0 where
    pub valid : IsManager s
    pub known : is_some (get peer_hex s.sessions) ≡ true

  pub ask-IsManager : {A : Type 0} (f : ℕ → A) → Keeps IsManager (ask lib f)
  ask-IsManager f = record { at = λ s h. ground arith }

  pub act-IsManager : (a : Action) → Keeps IsManager (act lib a)
  act-IsManager a = record { at = λ s h. ground arith }

  pub ask-WithSession :
      {A : Type 0} (peer_hex : Text) (f : ℕ → A) → Keeps (WithSession peer_hex) (ask lib f)
  ask-WithSession peer_hex f = record { at = λ s h. ground arith }

  pub set_nickname-IsManager :
      (nick : Text)
      → Keeps IsManager
          (modify (λ (s : Manager lib). record s { nickname = nick; last_announced = [] }))
  set_nickname-IsManager nick = record { at = λ s h. ground arith }

  pub set_peers-IsManager :
      (k v : Text)
      → Keeps IsManager (modify (λ (s : Manager lib). record s { peers = set k v s.peers }))
  set_peers-IsManager k v = record {
    at = λ s h. ground (arith, set-IsDict k v s.peers h.dicts.peers);
  }

  pub set_last_seen-IsManager :
      (k : Text) (v : ℕ)
      → Keeps IsManager
          (modify (λ (s : Manager lib). record s { peer_last_seen = set k v s.peer_last_seen }))
  set_last_seen-IsManager k v = record {
    at = λ s h. ground (arith, set-IsDict k v s.peer_last_seen h.dicts.peer_last_seen);
  }

  pub remove_last_seen-IsManager :
      (k : Text)
      → Keeps IsManager
          (modify (λ (s : Manager lib). record s { peer_last_seen = remove k s.peer_last_seen }))
  remove_last_seen-IsManager k = record {
    at = λ s h. ground (arith, remove-IsDict k s.peer_last_seen h.dicts.peer_last_seen);
  }

  pub set_announced-IsManager :
      (k : Text) (v : ℕ)
      → Keeps IsManager
          (modify (λ (s : Manager lib). record s { last_announced = set k v s.last_announced }))
  set_announced-IsManager k v = record {
    at = λ s h. ground (arith, set-IsDict k v s.last_announced h.dicts.last_announced);
  }

  pub remove_announced-IsManager :
      (k : Text)
      → Keeps IsManager
          (modify (λ (s : Manager lib). record s { last_announced = remove k s.last_announced }))
  remove_announced-IsManager k = record {
    at = λ s h. ground (arith, remove-IsDict k s.last_announced h.dicts.last_announced);
  }

  pub set_timestamp-IsManager :
      (k : Text) (v : ℕ)
      → Keeps IsManager (
          modify
            (λ (s : Manager lib). record s { session_timestamps = set k v s.session_timestamps }))
  set_timestamp-IsManager k v = record {
    at = λ s h. ground (arith, set-IsDict k v s.session_timestamps h.dicts.session_timestamps);
  }

  pub set_failures-IsManager :
      (k : Text) (v : ℕ)
      → Keeps IsManager (
          modify
            (λ (s : Manager lib). record s { decrypt_fail_count = set k v s.decrypt_fail_count }))
  set_failures-IsManager k v = record {
    at = λ s h. ground (arith, set-IsDict k v s.decrypt_fail_count h.dicts.decrypt_fail_count);
  }

  pub remove_failures-IsManager :
      (k : Text)
      → Keeps IsManager (
          modify
            (λ (s : Manager lib). record s { decrypt_fail_count = remove k s.decrypt_fail_count }))
  remove_failures-IsManager k = record {
    at = λ s h. ground (arith, remove-IsDict k s.decrypt_fail_count h.dicts.decrypt_fail_count);
  }

  pub remove_pending-IsManager :
      (k : Text)
      → Keeps IsManager
          (modify (λ (s : Manager lib). record s { pending_sends = remove k s.pending_sends }))
  remove_pending-IsManager k = record {
    at = λ s h. ground (arith, remove-IsDict k s.pending_sends h.dicts.pending_sends);
  }

  pub queue-IsManager :
      (k : Text) (q : PendingSend)
      → Keeps IsManager (
          modify (λ (s : Manager lib). record s {
            pending_sends = set k (find_or k [] s.pending_sends ++ q ∷ []) s.pending_sends;
          }))
  queue-IsManager k q = record {
    at = λ s h. ground (
      arith,
      set-IsDict k (find_or k [] s.pending_sends ++ q ∷ []) s.pending_sends h.dicts.pending_sends,
    );
  }
