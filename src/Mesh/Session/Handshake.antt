-- ===== src/Mesh/Session/Handshake.antt =====
-- `_handle_noise_handshake` of server/bitchatd/mesh/session_manager.py, in the order of its parts. The
-- first message of a handshake is told from the third by its 32 bytes.
pub mod Retry
use bit_chat_pi.Prelude.{
  Bool, Option, [], false, if◌then◌else◌, length, none, not, some, ◌&&◌, ◌==◌, ◌||◌, list_eq,
}
use bit_chat_pi.Bytes.{Bytes}
use bit_chat_pi.Text.{Text}
use bit_chat_pi.Exec.{gets, modify, pure, ◌>>=◌, ◌>>◌}
use bit_chat_pi.Dict.{get, has, remove, set}
use bit_chat_pi.Protocol.MessageType
use bit_chat_pi.Protocol.Packet.{Packet}
use bit_chat_pi.Crypto.Noise.{
  NoiseLibrary, NoiseSession, create, read_handshake_message, write_handshake_message,
}
use bit_chat_pi.Mesh.Session.State.{Environment, Manager, Run, ask}
use bit_chat_pi.Mesh.Session.Announces.{is_value}
use bit_chat_pi.Mesh.Session.Outgoing.{send_private}
use bit_chat_pi.Mesh.Session.Pending.{drain_pending_sends, is_established, keep_session}

abbrev pub is_msg1 : Packet → Bool
is_msg1 pkt = length pkt.payload == 32

module _ (lib : NoiseLibrary) where
  -- `_pending_msg2.pop(...)` and `_last_msg1.pop(...)`
  abbrev pub clear_messages : Text → Manager lib → Manager lib
  clear_messages peer_hex s = record s {
    pending_msg2 = remove peer_hex s.pending_msg2;
    last_msg1 = remove peer_hex s.last_msg1;
  }

  -- A failed handshake: the session and its messages are dropped.
  unfoldable pub drop_session : Text → Run lib (Unit {0})
  drop_session peer_hex =
      modify (λ s. clear_messages peer_hex (record s { sessions = remove peer_hex s.sessions }))

  -- A first message that came before, with the answer that was sent: the phone did not get it.
  abbrev pub cached_answer : Packet → Text → Manager lib → Option Bytes
  cached_answer pkt peer_hex s =
      if is_value (get peer_hex s.last_msg1) pkt.payload then get peer_hex s.pending_msg2 else none

module _ (env : Environment) (lib : NoiseLibrary) where
  -- `NoiseSession.create_responder(...)`, entered in the dictionary.
  unfoldable pub new_responder : Text → Run lib (NoiseSession lib)
  new_responder peer_hex = do
    t ← ask lib env.monotonic
    let sess = create lib false t env.identity.noise_keypair
    modify (keep_session lib peer_hex sess)
    pure sess

  -- The session, or a new one for a first message. `none`: an unknown peer that does not begin.
  unfoldable pub session_or_new :
      Packet → Text → Option (NoiseSession lib) → Run lib (Option (NoiseSession lib))
  session_or_new pkt peer_hex (some sess) = pure (some sess)
  session_or_new pkt peer_hex none =
      if is_msg1 pkt
      then (do
        sess ← new_responder peer_hex
        t ← ask lib env.clock
        modify (λ s. record s { session_timestamps = set peer_hex t s.session_timestamps })
        pure (some sess))
      else pure none

  unfoldable pub find_session : Packet → Text → Run lib (Option (NoiseSession lib))
  find_session pkt peer_hex = do
    known ← gets (λ s. get peer_hex s.sessions)
    session_or_new pkt peer_hex known

  unfoldable pub restart : Text → Run lib (NoiseSession lib)
  restart peer_hex = do
    sess ← new_responder peer_hex
    modify (clear_messages lib peer_hex)
    pure sess

  -- A first message for an established session: the peer wants a fresh handshake.
  unfoldable pub restart_established : Packet → Text → NoiseSession lib → Run lib (NoiseSession lib)
  restart_established pkt peer_hex sess =
      if is_established lib sess && is_msg1 pkt then restart peer_hex else pure sess

  -- The cached answer is sent; a first message that is another one begins again.
  unfoldable pub answer_again :
      Packet → Text → NoiseSession lib → Bool → Option Bytes → Run lib (Option (NoiseSession lib))
  answer_again pkt peer_hex sess begun (some msg2) = do
    send_private env lib MessageType.noise_handshake pkt.sender_id msg2
    pure none
  answer_again pkt peer_hex sess begun none =
      if begun then (do fresh ← restart peer_hex; pure (some fresh)) else pure (some sess)

  -- A first message while the handshake runs. `none`: it was answered from the cache.
  unfoldable pub restart_repeated :
      Packet → Text → NoiseSession lib → Run lib (Option (NoiseSession lib))
  restart_repeated pkt peer_hex sess =
      if not (is_established lib sess) && is_msg1 pkt
      then (do
        cached ← gets (cached_answer lib pkt peer_hex)
        begun ← gets (λ s. has peer_hex s.last_msg1 || has peer_hex s.pending_msg2)
        answer_again pkt peer_hex sess begun cached)
      else pure (some sess)

  -- What was written is kept and sent.
  unfoldable pub send_msg2 : Packet → Text → Option Bytes → Run lib (Unit {0})
  send_msg2 pkt peer_hex none = drop_session lib peer_hex
  send_msg2 pkt peer_hex (some outgoing) = do
    modify (λ s. record s { pending_msg2 = set peer_hex outgoing s.pending_msg2 })
    send_private env lib MessageType.noise_handshake pkt.sender_id outgoing

  -- `_session_timestamps` and the answer to a first message.
  unfoldable pub answer_msg1 : Packet → Text → NoiseSession lib → Run lib (Unit {0})
  answer_msg1 pkt peer_hex sess = do
    t ← ask lib env.clock
    modify (λ s. record s { session_timestamps = set peer_hex t s.session_timestamps })
    t' ← ask lib env.monotonic
    let r = write_handshake_message lib t' [] sess
    modify (keep_session lib peer_hex r.0)
    send_msg2 pkt peer_hex r.1

  unfoldable pub note_msg1 : Packet → Text → Run lib (Unit {0})
  note_msg1 pkt peer_hex =
      if is_msg1 pkt
      then modify (λ s. record s { last_msg1 = set peer_hex pkt.payload s.last_msg1 })
      else pure tt

  -- The handshake is over: its messages are dropped, and the waiting messages sent.
  unfoldable pub finish : Text → NoiseSession lib → Run lib (Unit {0})
  finish peer_hex sess = do
    modify (clear_messages lib peer_hex)
    drain_pending_sends env lib peer_hex sess

  -- What follows the reading of a message, by what `read_handshake_message` gave.
  unfoldable pub advance : Packet → Text → NoiseSession lib → Option Bytes → Run lib (Unit {0})
  advance pkt peer_hex sess none = drop_session lib peer_hex
  advance pkt peer_hex sess (some answer) = do
    note_msg1 pkt peer_hex
    if is_established lib sess then finish peer_hex sess else answer_msg1 pkt peer_hex sess

  unfoldable pub read_message : Packet → Text → NoiseSession lib → Run lib (Unit {0})
  read_message pkt peer_hex sess = do
    t ← ask lib env.monotonic
    let r = read_handshake_message lib t pkt.payload sess
    modify (keep_session lib peer_hex r.0)
    advance pkt peer_hex r.0 r.1

  unfoldable pub read_unanswered : Packet → Text → Option (NoiseSession lib) → Run lib (Unit {0})
  read_unanswered pkt peer_hex none = pure tt
  read_unanswered pkt peer_hex (some sess) = read_message pkt peer_hex sess

  unfoldable pub handle_with : Packet → Text → Option (NoiseSession lib) → Run lib (Unit {0})
  handle_with pkt peer_hex none = pure tt
  handle_with pkt peer_hex (some sess) = do
    current ← restart_established pkt peer_hex sess
    unanswered ← restart_repeated pkt peer_hex current
    read_unanswered pkt peer_hex unanswered

  unfoldable pub handle_noise_handshake : Packet → Text → Run lib (Unit {0})
  handle_noise_handshake pkt peer_hex = do
    found ← find_session pkt peer_hex
    handle_with pkt peer_hex found
