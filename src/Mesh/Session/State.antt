-- ===== src/Mesh/Session/State.antt =====
-- `class SessionManager` of server/bitchatd/mesh/session_manager.py: its attributes, and what it
-- calls. What the manager sends, publishes and writes is a trace of actions, oldest first.
use bit_chat_pi.Prelude.{Bool, List, Option, [], some, ℕ, ◌++◌, ◌+◌, ◌||◌, ◌∷◌, list_eq}
use bit_chat_pi.Bytes.{Bytes}
use bit_chat_pi.Text.{Text}
use bit_chat_pi.Zlib.{Zlib}
use bit_chat_pi.Dict.{Dict, has}
use bit_chat_pi.Exec.{Exec}
use bit_chat_pi.Protocol.Packet.{Packet}
use bit_chat_pi.Crypto.Noise.{NoiseLibrary, NoiseSession}

-- `class Identity` of crypto/identity.py; the key pair and the signing key are those of the libraries.
pub record Identity : Type 0 where
  pub noise_keypair : Bytes
  pub noise_pub : Bytes
  pub sign_private : Bytes
  pub sign_public : Bytes
  pub peer_id : Bytes

-- What the manager is built with, and what it asks of the system. A function of a number answers the
-- calls in turn: `time.time()` and the monotonic clock in milliseconds, `uuid.uuid4()`, the callback
-- `is_reachable`, and whether a file could be written. `sign` is that of the library cryptography.
pub record Environment : Type 0 where
  pub identity : Identity
  pub files_dir : Text
  pub peer_timeout : ℕ
  pub z : Zlib
  pub sign : Bytes → Bytes → Bytes
  pub clock : ℕ → ℕ
  pub monotonic : ℕ → ℕ
  pub uuid4 : ℕ → Text
  pub is_reachable : ℕ → Bool
  pub write_file : ℕ → Bool
  pub read_file : ℕ → Text → Option Bytes

-- A message as it is published; the keys `to`, `auto` and `queued` are not always there.
pub record MessageEvent : Type 0 where
  pub from : Text
  pub to : Option Text
  pub nick : Text
  pub content : Text
  pub private : Bool
  pub self : Bool
  pub auto : Option Bool
  pub ts : ℕ
  pub msg_id : Text
  pub queued : Bool

pub data ReceiptType : Type 0 where
  read_receipt delivery_receipt : ReceiptType

-- The dictionaries that are handed to `publish`.
pub data Event : Type 0 where
  peer_seen : (peer_id nick : Text) (last_seen : ℕ) → Event
  peer_lost : (peer_id nick : Text) → Event
  receipt : (kind : ReceiptType) (ref from : Text) → Event
  file : (from nick path mime name : Text) → Event
  message_event : MessageEvent → Event
  message_delivered : (msg_id to : Text) → Event

pub data Action : Type 0 where
  send_packet fragment_and_send : Packet → Action
  publish : Event → Action
  save : (path : Text) (contents : Bytes) → Action

-- A message that waits for a session: content, identifier and the time it was queued.
pub record PendingSend : Type 0 where
  pub content : Text
  pub msg_id : Text
  pub queued_at : ℕ

module _ (lib : NoiseLibrary) where
  -- `calls` counts the answers of the environment.
  pub record Manager : Type 0 where
    pub nickname : Text
    pub sessions : Dict Text (NoiseSession lib)
    pub peers : Dict Text Text
    pub peer_noise_pub : Dict Text Bytes
    pub peer_last_seen : Dict Text ℕ
    pub last_announced : Dict Text ℕ
    pub last_msg1 : Dict Text Bytes
    pub pending_msg2 : Dict Text Bytes
    pub pending_sends : Dict Text (List PendingSend)
    pub session_timestamps : Dict Text ℕ
    pub decrypt_fail_count : Dict Text ℕ
    pub calls : ℕ
    pub trace : List Action

  -- `__init__`
  abbrev pub new_manager : Text → Manager
  new_manager nickname = record {
    nickname = nickname;
    sessions = [];
    peers = [];
    peer_noise_pub = [];
    peer_last_seen = [];
    last_announced = [];
    last_msg1 = [];
    pending_msg2 = [];
    pending_sends = [];
    session_timestamps = [];
    decrypt_fail_count = [];
    calls = 0;
    trace = [];
  }

  abbrev pub Run : Type 0 → Type 0
  Run A = Exec Manager A

  -- An answer of the environment.
  abbrev pub ask : {A : Type 0} → (ℕ → A) → Run A
  ask f s = (some (f s.calls), record s { calls = s.calls + 1 })

  abbrev pub act : Action → Run (Unit {0})
  act a s = (some tt, record s { trace = s.trace ++ a ∷ [] })

  unfoldable pub has_session : Text → Manager → Bool
  has_session peer_hex s = has peer_hex s.sessions || has peer_hex s.peers

  abbrev pub clear_announce_cooldown : Manager → Manager
  clear_announce_cooldown s = record s { last_announced = [] }
