-- ===== src/Mesh/Session/Commands.antt =====
-- `handle_command` and `_dispatch_command` of server/bitchatd/mesh/session_manager.py. A command is
-- the JSON object of a client, by its `cmd`; a key that is missing has the default of the `get` call.
use bit_chat_pi.Prelude.{
  Bool, List, Option, [], false, if◌then◌else◌, is_some, none, some, true, ℕ, ◌++◌, ◌/◌, ◌||◌, ◌∷◌,
  list_eq,
}
use bit_chat_pi.Bytes.{Bytes}
use bit_chat_pi.Text.{Text, strip, text}
use bit_chat_pi.Text.Hex.{hex}
use bit_chat_pi.Text.Unhex.{unhex}
use bit_chat_pi.Exec.{gets, lift, modify, pure, ◌>>=◌, ◌>>◌}
use bit_chat_pi.Dict.{Dict, find_or, get, set}
use bit_chat_pi.Protocol.MessageType
use bit_chat_pi.Crypto.Noise.{NoiseLibrary, NoiseSession}
use bit_chat_pi.Mesh.Session.State.{
  Environment, MessageEvent, Run, act, ask, fragment_and_send, message_event, publish,
}
use bit_chat_pi.Mesh.Session.Outgoing.{
  announce_now, make_announce, make_message_packet, private_packet, send, send_private,
}
use bit_chat_pi.Mesh.Session.Payload.{encode_file_payload, encode_message_payload}
use bit_chat_pi.Mesh.Session.Pending.{encrypt_for}
use bit_chat_pi.Mesh.Session.Encrypted.{established}

pub data Command : Type 0 where
  ping : Command
  list_peers : Command
  set_nick : (nick : Text) → Command
  send_text : (to content : Text) (auto : Bool) → Command
  broadcast : (content : Text) → Command
  send_file : (to path : Text) → Command
  other_command : (name : Text) → Command

pub data CommandError : Type 0 where
  invalid_params invalid_peer_id encrypt_failed file_read_error no_session unknown_command :
      CommandError

-- The answers: `{"ok": True, …}` and `{"ok": False, "error": …}`.
pub data Response : Type 0 where
  pong : Response
  peer_list : List (Text × Text × ℕ) → Response
  nick_set : (nick : Text) → Response
  sent : (msg_id : Text) → Response
  sent_queued : (msg_id : Text) → Response
  broadcast_sent : (msg_id : Text) → Response
  refused : CommandError → Response

-- `cmd.get("cmd")`
abbrev pub command_name : Command → Text
command_name ping = text "ping"
command_name list_peers = text "peers"
command_name (set_nick nick) = text "set_nick"
command_name (send_text to content auto) = text "send"
command_name (broadcast content) = text "broadcast"
command_name (send_file to path) = text "send_file"
command_name (other_command name) = name

abbrev pub is_empty : Text → Bool
is_empty [] = true
is_empty (c ∷ cs) = false

module _ (env : Environment) (lib : NoiseLibrary) where
  abbrev pub listed : Dict Text ℕ → Dict Text Text → List (Text × Text × ℕ)
  listed seen [] = []
  listed seen ((peer_hex, nick) ∷ peers) =
      (peer_hex, nick, find_or peer_hex 0 seen) ∷ listed seen peers

  unfoldable pub run_set_nick : Text → Run lib Response
  run_set_nick nick = if is_empty (strip nick) then pure (refused invalid_params) else (do
    modify (λ s. record s { nickname = strip nick; last_announced = [] })
    p ← make_announce env lib
    send env lib p
    pure (nick_set (strip nick)))

  -- What a client is shown of a message of this node.
  abbrev pub own_message : Text → Option Text → Text → Option Bool → ℕ → Text → Bool → MessageEvent
  own_message nick to content auto ts msg_id queued = record {
    from = hex env.identity.peer_id;
    to = to;
    nick = nick;
    content = content;
    private = is_some to;
    self = true;
    auto = auto;
    ts = ts / 1000;
    msg_id = msg_id;
    queued = queued;
  }

  unfoldable pub publish_own : Option Text → Text → Option Bool → Text → Bool → Run lib (Unit {0})
  publish_own to content auto msg_id queued = do
    nick ← gets (λ s. s.nickname)
    ts ← ask lib env.clock
    act lib (publish (message_event (own_message nick to content auto ts msg_id queued)))

  -- No session, or no subscriber: the message waits, and an announcement invites the peer.
  unfoldable pub queue_text : Text → Text → Bool → Run lib Response
  queue_text to content auto = do
    msg_id ← ask lib env.uuid4
    t ← ask lib env.clock
    modify (λ s. record s {
      pending_sends =
          set to
            (find_or to [] s.pending_sends
              ++ record { content = content; msg_id = msg_id; queued_at = t } ∷ [])
            s.pending_sends;
    })
    announce_now env lib to
    publish_own (some to) content (some auto) msg_id true
    pure (sent_queued msg_id)

  -- The answer to a message that was encrypted, or not.
  unfoldable pub send_wire : Text → Text → Bool → Bytes → Text → Option Bytes → Run lib Response
  send_wire to content auto recipient_id msg_id none = pure (refused encrypt_failed)
  send_wire to content auto recipient_id msg_id (some wire) = do
    send_private env lib MessageType.noise_encrypted recipient_id wire
    publish_own (some to) content (some auto) msg_id false
    pure (sent msg_id)

  unfoldable pub send_text_now :
      Text → Text → Bool → NoiseSession lib → Option Bytes → Run lib Response
  send_text_now to content auto sess none = pure (refused invalid_peer_id)
  send_text_now to content auto sess (some recipient_id) = do
    msg_id ← ask lib env.uuid4
    payload ← lift (encode_message_payload content msg_id)
    r ← encrypt_for env lib to sess payload
    send_wire to content auto recipient_id msg_id r.1

  -- `is_reachable` is asked only where there is an established session.
  unfoldable pub send_or_queue : Text → Text → Bool → Option (NoiseSession lib) → Run lib Response
  send_or_queue to content auto none = queue_text to content auto
  send_or_queue to content auto (some sess) = do
    reachable ← ask lib env.is_reachable
    if reachable then send_text_now to content auto sess (unhex to) else queue_text to content auto

  unfoldable pub run_send : Text → Text → Bool → Run lib Response
  run_send to content auto =
      if is_empty to || is_empty content then pure (refused invalid_params) else (do
        known ← gets (λ s. established env lib (get to s.sessions))
        send_or_queue to content auto known)

  unfoldable pub run_broadcast : Text → Run lib Response
  run_broadcast content = if is_empty content then pure (refused invalid_params) else (do
    msg_id ← ask lib env.uuid4
    p ← make_message_packet env lib content
    send env lib p
    publish_own none content none msg_id false
    pure (broadcast_sent msg_id))

  unfoldable pub send_file_wire : Bytes → Text → Option Bytes → Run lib Response
  send_file_wire recipient_id msg_id none = pure (refused encrypt_failed)
  send_file_wire recipient_id msg_id (some wire) = do
    ts ← ask lib env.clock
    act lib
        (fragment_and_send (private_packet env MessageType.noise_encrypted recipient_id wire ts))
    pure (sent msg_id)

  unfoldable pub send_file_now : Text → Bytes → NoiseSession lib → Option Bytes → Run lib Response
  send_file_now to contents sess none = pure (refused invalid_peer_id)
  send_file_now to contents sess (some recipient_id) = do
    msg_id ← ask lib env.uuid4
    payload ← lift (encode_file_payload contents msg_id)
    r ← encrypt_for env lib to sess payload
    send_file_wire recipient_id msg_id r.1

  unfoldable pub send_file_to : Text → Bytes → Option (NoiseSession lib) → Run lib Response
  send_file_to to contents none = pure (refused no_session)
  send_file_to to contents (some sess) = send_file_now to contents sess (unhex to)

  unfoldable pub send_file_read : Text → Option Bytes → Run lib Response
  send_file_read to none = pure (refused file_read_error)
  send_file_read to (some contents) = do
    known ← gets (λ s. established env lib (get to s.sessions))
    send_file_to to contents known

  unfoldable pub run_send_file : Text → Text → Run lib Response
  run_send_file to path =
      if is_empty to || is_empty path
      then pure (refused invalid_params)
      else (do contents ← ask lib (λ i. env.read_file i path); send_file_read to contents)

  unfoldable pub dispatch_command : Command → Run lib Response
  dispatch_command ping = pure pong
  dispatch_command list_peers = gets (λ s. peer_list (listed s.peer_last_seen s.peers))
  dispatch_command (set_nick nick) = run_set_nick nick
  dispatch_command (send_text to content auto) = run_send to content auto
  dispatch_command (broadcast content) = run_broadcast content
  dispatch_command (send_file to path) = run_send_file to path
  dispatch_command (other_command name) = pure (refused unknown_command)

  -- The answer carries the name of its command.
  unfoldable pub handle_command : Command → Run lib (Text × Response)
  handle_command cmd = do response ← dispatch_command cmd; pure (command_name cmd, response)
