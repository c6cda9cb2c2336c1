-- ===== src/Mesh/Session/Invariant/Handlers.antt =====
-- What a node sends, and how it treats announcements and waiting messages, keeps the invariant, also
-- where it raises.
use bit_chat_pi.Prelude.{List, Option, [], none, some, ℕ, ◌∷◌, list_eq}
use bit_chat_pi.Bytes.{Bytes}
use bit_chat_pi.Text.{Text}
use bit_chat_pi.Exec.Keeps.{Keeps, Keeps-pure, keeps_rules}
use bit_chat_pi.Crypto.Noise.{NoiseLibrary, NoiseSession}
use bit_chat_pi.Protocol.Packet.{Packet}
use bit_chat_pi.Protocol.Announce.{AnnouncePayload}
use bit_chat_pi.Mesh.Session.State.{Environment, PendingSend, send_packet}
use bit_chat_pi.Mesh.Session.Outgoing.{
  announce_now, echo_announce, make_announce, make_leave, make_message_packet, note_announced, send,
  send_private,
}
use bit_chat_pi.Mesh.Session.Announces.{
  handle_announce, handle_leave, note_announcement, note_nickname, sweep, time_out,
}
use bit_chat_pi.Mesh.Session.Pending.{
  cancel_pending_sends, deliver_queued, drain_pending_sends, encrypt_for, send_fresh, send_queued,
}
use bit_chat_pi.Mesh.Session.Invariant.{
  IsManager, act-IsManager, ask-IsManager, remove_announced-IsManager, remove_last_seen-IsManager,
  remove_pending-IsManager, set_announced-IsManager, set_peers-IsManager,
}
use bit_chat_pi.Mesh.Session.Invariant.Sessions.{
  forget_peer-IsManager, keep_session-IsManager, note_noise_pub-IsManager,
}

module _ (env : Environment) (lib : NoiseLibrary) where
  pub send-IsManager : (p : Packet) → Keeps (IsManager lib) (send env lib p)
  unfolding send
  send-IsManager p = act-IsManager lib (send_packet p)

  pub make_announce-IsManager : Keeps (IsManager lib) (make_announce env lib)
  unfolding make_announce
  make_announce-IsManager = search (keeps_rules, ask-IsManager lib) depth 12

  pub make_leave-IsManager : Keeps (IsManager lib) (make_leave env lib)
  unfolding make_leave
  make_leave-IsManager = search (keeps_rules, ask-IsManager lib) depth 12

  pub make_message_packet-IsManager :
      (content : Text) → Keeps (IsManager lib) (make_message_packet env lib content)
  unfolding make_message_packet
  make_message_packet-IsManager content = search (keeps_rules, ask-IsManager lib) depth 12

  pub send_private-IsManager :
      (type : ℕ) (recipient_id payload : Bytes)
      → Keeps (IsManager lib) (send_private env lib type recipient_id payload)
  unfolding send_private
  send_private-IsManager type recipient_id payload =
      search (keeps_rules, ask-IsManager lib, send-IsManager) depth 12

  note_announced-IsManager : (k : Text) (t : ℕ) → Keeps (IsManager lib) (note_announced env lib k t)
  unfolding note_announced
  note_announced-IsManager k t = set_announced-IsManager lib k t

  pub announce_now-IsManager : (k : Text) → Keeps (IsManager lib) (announce_now env lib k)
  unfolding announce_now
  announce_now-IsManager k =
      search
        (
          keeps_rules,
          ask-IsManager lib,
          send-IsManager,
          make_announce-IsManager,
          note_announced-IsManager,
          remove_announced-IsManager lib,
        )
        depth 12

  pub echo_announce-IsManager : (k : Text) → Keeps (IsManager lib) (echo_announce env lib k)
  unfolding echo_announce
  echo_announce-IsManager k =
      search
        (
          keeps_rules,
          ask-IsManager lib,
          send-IsManager,
          make_announce-IsManager,
          note_announced-IsManager,
        )
        depth 12

  note_nickname-IsManager : (k nick : Text) → Keeps (IsManager lib) (note_nickname env lib k nick)
  unfolding note_nickname
  note_nickname-IsManager k nick =
      search (keeps_rules, ask-IsManager lib, act-IsManager lib, set_peers-IsManager lib) depth 12

  note_announcement-IsManager :
      (k : Text) (ann : Option AnnouncePayload)
      → Keeps (IsManager lib) (note_announcement env lib k ann)
  unfolding note_announcement
  note_announcement-IsManager k none = Keeps-pure tt
  note_announcement-IsManager k (some ann) =
      search (keeps_rules, note_nickname-IsManager, note_noise_pub-IsManager lib k env) depth 12

  pub handle_announce-IsManager :
      (pkt : Packet) (k : Text) → Keeps (IsManager lib) (handle_announce env lib pkt k)
  unfolding handle_announce
  handle_announce-IsManager pkt k =
      search (keeps_rules, note_announcement-IsManager, echo_announce-IsManager) depth 12

  pub handle_leave-IsManager : (k : Text) → Keeps (IsManager lib) (handle_leave lib k)
  unfolding handle_leave
  handle_leave-IsManager k =
      search (keeps_rules, act-IsManager lib, forget_peer-IsManager lib) depth 12

  time_out-IsManager : (k : Text) → Keeps (IsManager lib) (time_out env lib k)
  unfolding time_out
  time_out-IsManager k =
      search
        (keeps_rules, act-IsManager lib, forget_peer-IsManager lib, remove_last_seen-IsManager lib)

  pub sweep-IsManager : Keeps (IsManager lib) (sweep env lib)
  unfolding sweep
  sweep-IsManager = search (keeps_rules, ask-IsManager lib, time_out-IsManager) depth 12

  pub encrypt_for-IsManager :
      (k : Text) (sess : NoiseSession lib) (payload : Bytes)
      → Keeps (IsManager lib) (encrypt_for env lib k sess payload)
  unfolding encrypt_for
  encrypt_for-IsManager k sess payload =
      search (keeps_rules, ask-IsManager lib, keep_session-IsManager lib k) depth 12

  deliver_queued-IsManager :
      (k : Text) (recipient_id : Bytes) (q : PendingSend) (wire : Option Bytes)
      → Keeps (IsManager lib) (deliver_queued env lib k recipient_id q wire)
  unfolding deliver_queued
  deliver_queued-IsManager k recipient_id q none = Keeps-pure tt
  deliver_queued-IsManager k recipient_id q (some wire) =
      search (keeps_rules, act-IsManager lib, send_private-IsManager)

  pub send_queued-IsManager :
      (k : Text) (recipient_id : Bytes) (qs : List PendingSend) (sess : NoiseSession lib)
      → Keeps (IsManager lib) (send_queued env lib k recipient_id qs sess)
  unfolding send_queued
  send_queued-IsManager k recipient_id [] sess = Keeps-pure tt
  send_queued-IsManager k recipient_id (q ∷ qs) sess =
      let rest = send_queued-IsManager k recipient_id qs in
      search (keeps_rules, encrypt_for-IsManager, deliver_queued-IsManager, rest) depth 12

  send_fresh-IsManager :
      (k : Text) (sess : NoiseSession lib) (recipient_id : Option Bytes) (qs : List PendingSend)
      → Keeps (IsManager lib) (send_fresh env lib k sess recipient_id qs)
  unfolding send_fresh
  send_fresh-IsManager k sess recipient_id [] = Keeps-pure tt
  send_fresh-IsManager k sess none (q ∷ qs) = Keeps-pure tt
  send_fresh-IsManager k sess (some recipient_id) (q ∷ qs) =
      send_queued-IsManager k recipient_id (q ∷ qs) sess

  pub drain_pending_sends-IsManager :
      (k : Text) (sess : NoiseSession lib)
      → Keeps (IsManager lib) (drain_pending_sends env lib k sess)
  unfolding drain_pending_sends
  drain_pending_sends-IsManager k sess =
      search (keeps_rules, ask-IsManager lib, remove_pending-IsManager lib, send_fresh-IsManager)
        depth 12

  pub cancel_pending_sends-IsManager :
      (k : Text) → Keeps (IsManager lib) (cancel_pending_sends lib k)
  unfolding cancel_pending_sends
  cancel_pending_sends-IsManager k = search (keeps_rules, remove_pending-IsManager lib) depth 12
