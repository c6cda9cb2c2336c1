-- ===== src/Mesh/Session/Invariant/Reach.antt =====
-- Commands keep the invariant too, so it holds of every state that a session manager can reach.
use bit_chat_pi.Mesh.Session.Outgoing.{make_announce, send}
use bit_chat_pi.Text.Unhex.{unhex}
use bit_chat_pi.Prelude.{Bool, Option, [], arith, none, refl, some, list_eq}
use bit_chat_pi.Bytes.{Bytes}
use bit_chat_pi.Text.{Text, strip}
use bit_chat_pi.Exec.Keeps.{Keeps, Keeps-bind, Keeps-gets, Keeps-if, Keeps-pure, keeps_rules}
use bit_chat_pi.Dict.{get}
use bit_chat_pi.Crypto.Noise.{NoiseLibrary, NoiseSession}
use bit_chat_pi.Protocol.Packet.{Packet}
use bit_chat_pi.Mesh.Session.State.{Environment, Manager, clear_announce_cooldown, new_manager}
use bit_chat_pi.Mesh.Session.Announces.{sweep}
use bit_chat_pi.Mesh.Session.Pending.{cancel_pending_sends}
use bit_chat_pi.Mesh.Session.Packets.{handle_packet}
use bit_chat_pi.Mesh.Session.Commands.{
  Command, broadcast, dispatch_command, encrypt_failed, file_read_error, handle_command,
  invalid_params, invalid_peer_id, is_empty, list_peers, listed, nick_set, no_session,
  other_command, peer_list, ping, pong, publish_own, queue_text, refused, run_broadcast, run_send,
  run_send_file, run_set_nick, send_file, send_file_now, send_file_read, send_file_to,
  send_file_wire, send_or_queue, send_text, send_text_now, send_wire, set_nick, unknown_command,
}
use bit_chat_pi.Mesh.Session.Invariant.{
  IsManager, act-IsManager, ask-IsManager, queue-IsManager, set_nickname-IsManager,
}
use bit_chat_pi.Mesh.Session.Invariant.Handlers.{
  announce_now-IsManager, cancel_pending_sends-IsManager, encrypt_for-IsManager,
  make_announce-IsManager, make_message_packet-IsManager, send-IsManager, send_private-IsManager,
  sweep-IsManager,
}
use bit_chat_pi.Mesh.Session.Invariant.Packets.{handle_packet-IsManager}
use bit_chat_pi.Exec.{modify, pure, ◌>>=◌, ◌>>◌}

module _ (env : Environment) (lib : NoiseLibrary) where
  run_set_nick-IsManager : (nick : Text) → Keeps (IsManager lib) (run_set_nick env lib nick)
  unfolding run_set_nick
  run_set_nick-IsManager nick =
      Keeps-if (is_empty (strip nick)) (pure (refused invalid_params)) _
        (Keeps-pure (refused invalid_params))
        (Keeps-bind
          (modify (λ (s : Manager lib). record s { nickname = strip nick; last_announced = [] }))
          (λ _. do p ← make_announce env lib; send env lib p; pure (nick_set (strip nick)))
          (set_nickname-IsManager lib (strip nick))
          (λ _.
            Keeps-bind (make_announce env lib) (λ p. send env lib p >> pure (nick_set (strip nick)))
              (make_announce-IsManager env lib)
              (λ p.
                Keeps-bind (send env lib p) (λ _. pure (nick_set (strip nick)))
                  (send-IsManager env lib p) (λ _. Keeps-pure (nick_set (strip nick))))))

  publish_own-IsManager :
      (to : Option Text) (content : Text) (auto : Option Bool) (msg_id : Text) (queued : Bool)
      → Keeps (IsManager lib) (publish_own env lib to content auto msg_id queued)
  unfolding publish_own
  publish_own-IsManager to content auto msg_id queued =
      search (keeps_rules, ask-IsManager lib, act-IsManager lib) depth 12

  queue_text-IsManager :
      (to content : Text) (auto : Bool) → Keeps (IsManager lib) (queue_text env lib to content auto)
  unfolding queue_text
  queue_text-IsManager to content auto =
      search
        (
          keeps_rules,
          ask-IsManager lib,
          queue-IsManager lib,
          announce_now-IsManager env lib,
          publish_own-IsManager,
        )
        depth 16

  send_wire-IsManager :
      (to content : Text) (auto : Bool) (recipient_id : Bytes) (msg_id : Text) (wire : Option Bytes)
      → Keeps (IsManager lib) (send_wire env lib to content auto recipient_id msg_id wire)
  unfolding send_wire
  send_wire-IsManager to content auto recipient_id msg_id none = Keeps-pure (refused encrypt_failed)
  send_wire-IsManager to content auto recipient_id msg_id (some wire) =
      search (keeps_rules, send_private-IsManager env lib, publish_own-IsManager) depth 12

  send_text_now-IsManager :
      (to content : Text) (auto : Bool) (sess : NoiseSession lib) (recipient_id : Option Bytes)
      → Keeps (IsManager lib) (send_text_now env lib to content auto sess recipient_id)
  unfolding send_text_now
  send_text_now-IsManager to content auto sess none = Keeps-pure (refused invalid_peer_id)
  send_text_now-IsManager to content auto sess (some recipient_id) =
      search (keeps_rules, ask-IsManager lib, encrypt_for-IsManager env lib, send_wire-IsManager)
        depth 12

  send_or_queue-IsManager :
      (to content : Text) (auto : Bool) (known : Option (NoiseSession lib))
      → Keeps (IsManager lib) (send_or_queue env lib to content auto known)
  unfolding send_or_queue
  send_or_queue-IsManager to content auto none = queue_text-IsManager to content auto
  send_or_queue-IsManager to content auto (some sess) =
      search (keeps_rules, ask-IsManager lib, send_text_now-IsManager, queue_text-IsManager) depth
        12

  run_send-IsManager :
      (to content : Text) (auto : Bool) → Keeps (IsManager lib) (run_send env lib to content auto)
  unfolding run_send
  run_send-IsManager to content auto = search (keeps_rules, send_or_queue-IsManager) depth 12

  run_broadcast-IsManager : (content : Text) → Keeps (IsManager lib) (run_broadcast env lib content)
  unfolding run_broadcast
  run_broadcast-IsManager content =
      search
        (
          keeps_rules,
          ask-IsManager lib,
          make_message_packet-IsManager env lib,
          send-IsManager env lib,
          publish_own-IsManager,
        )
        depth 12

  send_file_wire-IsManager :
      (recipient_id : Bytes) (msg_id : Text) (wire : Option Bytes)
      → Keeps (IsManager lib) (send_file_wire env lib recipient_id msg_id wire)
  unfolding send_file_wire
  send_file_wire-IsManager recipient_id msg_id none = Keeps-pure (refused encrypt_failed)
  send_file_wire-IsManager recipient_id msg_id (some wire) =
      search (keeps_rules, ask-IsManager lib, act-IsManager lib) depth 12

  send_file_now-IsManager :
      (to : Text) (contents : Bytes) (sess : NoiseSession lib) (recipient_id : Option Bytes)
      → Keeps (IsManager lib) (send_file_now env lib to contents sess recipient_id)
  unfolding send_file_now
  send_file_now-IsManager to contents sess none = Keeps-pure (refused invalid_peer_id)
  send_file_now-IsManager to contents sess (some recipient_id) =
      search
        (keeps_rules, ask-IsManager lib, encrypt_for-IsManager env lib, send_file_wire-IsManager)
        depth 12

  send_file_to-IsManager :
      (to : Text) (contents : Bytes) (known : Option (NoiseSession lib))
      → Keeps (IsManager lib) (send_file_to env lib to contents known)
  unfolding send_file_to
  send_file_to-IsManager to contents none = Keeps-pure (refused no_session)
  send_file_to-IsManager to contents (some sess) =
      send_file_now-IsManager to contents sess (unhex to)

  send_file_read-IsManager :
      (to : Text) (contents : Option Bytes)
      → Keeps (IsManager lib) (send_file_read env lib to contents)
  unfolding send_file_read
  send_file_read-IsManager to none = Keeps-pure (refused file_read_error)
  send_file_read-IsManager to (some contents) =
      search (keeps_rules, send_file_to-IsManager) depth 12

  run_send_file-IsManager : (to path : Text) → Keeps (IsManager lib) (run_send_file env lib to path)
  unfolding run_send_file
  run_send_file-IsManager to path =
      search (keeps_rules, ask-IsManager lib, send_file_read-IsManager) depth 12

  dispatch_command-IsManager :
      (cmd : Command) → Keeps (IsManager lib) (dispatch_command env lib cmd)
  unfolding dispatch_command
  dispatch_command-IsManager ping = Keeps-pure pong
  dispatch_command-IsManager list_peers =
      Keeps-gets (λ s. peer_list (listed env lib s.peer_last_seen s.peers))
  dispatch_command-IsManager (set_nick nick) = run_set_nick-IsManager nick
  dispatch_command-IsManager (send_text to content auto) = run_send-IsManager to content auto
  dispatch_command-IsManager (broadcast content) = run_broadcast-IsManager content
  dispatch_command-IsManager (send_file to path) = run_send_file-IsManager to path
  dispatch_command-IsManager (other_command name) = Keeps-pure (refused unknown_command)

  handle_command-IsManager : (cmd : Command) → Keeps (IsManager lib) (handle_command env lib cmd)
  unfolding handle_command
  handle_command-IsManager cmd = search (keeps_rules, dispatch_command-IsManager) depth 12

  -- What happens to a manager; a handler that raises leaves the state it had made.
  pub data ManagerStep (s : Manager lib) : Manager lib → Type 0 where
    packet : (pkt : Packet) → ManagerStep s (handle_packet env lib pkt s).1
    command : (cmd : Command) → ManagerStep s (handle_command env lib cmd s).1
    timeout : ManagerStep s (sweep env lib s).1
    cancel : (to_hex : Text) → ManagerStep s (cancel_pending_sends lib to_hex s).1
    clear_cooldown : ManagerStep s (clear_announce_cooldown lib s)

  pub data ReachableManager : Manager lib → Type 0 where
    begin : (nickname : Text) → ReachableManager (new_manager lib nickname)
    then_step : {s s' : Manager lib} → ReachableManager s → ManagerStep s s' → ReachableManager s'

  new_manager-IsManager : (nickname : Text) → IsManager lib (new_manager lib nickname)
  unfolding get
  new_manager-IsManager nickname = record {
    dicts = ground arith;
    msg1_of_session = λ k h. refl;
    msg2_of_session = λ k h. refl;
  }

  ManagerStep-IsManager :
      {s s' : Manager lib} → ManagerStep s s' → IsManager lib s → IsManager lib s'
  ManagerStep-IsManager {s} (packet pkt) h = (handle_packet-IsManager env lib pkt).at s h
  ManagerStep-IsManager {s} (command cmd) h = (handle_command-IsManager cmd).at s h
  ManagerStep-IsManager {s} timeout h = (sweep-IsManager env lib).at s h
  ManagerStep-IsManager {s} (cancel to_hex) h =
      (cancel_pending_sends-IsManager env lib to_hex).at s h
  ManagerStep-IsManager {s} clear_cooldown h = ground arith

  -- In every reachable state, also after a handler has raised, the keys of each dictionary are distinct,
  -- and a cached message of a handshake belongs to a peer that has a session.
  pub ReachableManager-IsManager : {s : Manager lib} → ReachableManager s → IsManager lib s
  ReachableManager-IsManager (begin nickname) = new_manager-IsManager nickname
  ReachableManager-IsManager (then_step r step) =
      ManagerStep-IsManager step (ReachableManager-IsManager r)
