-- ===== src/Mesh/Session/Invariant/Packets.antt =====
-- Every packet and every command keeps the invariant of the session manager, also where its handler
-- raises; so does the timeout.
use bit_chat_pi.Mesh.Session.Handshake.{new_responder}
use bit_chat_pi.Mesh.Session.Outgoing.{announce_now, make_leave, send}
use bit_chat_pi.Mesh.Session.Invariant.Sessions.{keep_session-IsManager}
use bit_chat_pi.Mesh.Session.Announces.{handle_request_sync}
use bit_chat_pi.Mesh.Session.Pending.{keep_session}
use bit_chat_pi.Prelude.{Option, none, some, ℕ, list_eq}
use bit_chat_pi.Bytes.{Bytes}
use bit_chat_pi.Text.{Text}
use bit_chat_pi.Mesh.Session.Invariant.Incoming.{
  parse_incoming-IsManager, save_received_file-IsManager,
}
use bit_chat_pi.Exec.{modify, ◌>>◌}
use bit_chat_pi.Exec.Keeps.{Keeps, Keeps-bind, Keeps-pure, keeps_rules}
use bit_chat_pi.Crypto.Noise.{NoiseLibrary, NoiseSession, decrypt}
use bit_chat_pi.Protocol.Packet.{Packet}
use bit_chat_pi.Mesh.Session.State.{Environment}
use bit_chat_pi.Mesh.Session.Files.{Parsed, receipt_for, received_file, text_message}
use bit_chat_pi.Mesh.Session.Encrypted.{
  answer_wire, count_failure, deliver, force_handshake, handle_noise_encrypted, open_message,
  read_plaintext, send_receipt, send_receipts,
}
use bit_chat_pi.Mesh.Session.Packets.{
  dispatch, handle_file_transfer, handle_packet, handle_public_message, note_seen,
}
use bit_chat_pi.Mesh.Session.Invariant.{
  IsManager, act-IsManager, ask-IsManager, remove_failures-IsManager, set_failures-IsManager,
  set_last_seen-IsManager,
}
use bit_chat_pi.Mesh.Session.Invariant.Handlers.{
  announce_now-IsManager, echo_announce-IsManager, encrypt_for-IsManager, handle_announce-IsManager,
  handle_leave-IsManager, make_leave-IsManager, send-IsManager, send_private-IsManager,
}
use bit_chat_pi.Mesh.Session.Invariant.Handshakes.{
  handle_noise_handshake-IsManager, new_responder-IsManager,
}
use bit_chat_pi.Protocol.MessageType

module _ (env : Environment) (lib : NoiseLibrary) where
  force_handshake-IsManager : (k : Text) → Keeps (IsManager lib) (force_handshake env lib k)
  unfolding force_handshake
  force_handshake-IsManager k =
      Keeps-bind (make_leave env lib)
        (λ p. send env lib p >> (new_responder env lib k >> announce_now env lib k))
        (make_leave-IsManager env lib)
        (λ p.
          Keeps-bind (send env lib p) (λ _. new_responder env lib k >> announce_now env lib k)
            (send-IsManager env lib p)
            (λ _.
              Keeps-bind (new_responder env lib k) (λ _. announce_now env lib k)
                (new_responder-IsManager env lib k) (λ _. announce_now-IsManager env lib k)))

  count_failure-IsManager : (k : Text) → Keeps (IsManager lib) (count_failure env lib k)
  unfolding count_failure
  count_failure-IsManager k =
      search
        (
          keeps_rules,
          set_failures-IsManager lib,
          remove_failures-IsManager lib,
          force_handshake-IsManager,
        )
        depth 12

  answer_wire-IsManager :
      (pkt : Packet) (wire : Option Bytes) → Keeps (IsManager lib) (answer_wire env lib pkt wire)
  unfolding answer_wire
  answer_wire-IsManager pkt none = Keeps-pure tt
  answer_wire-IsManager pkt (some wire) =
      send_private-IsManager env lib MessageType.noise_encrypted pkt.sender_id wire

  send_receipt-IsManager :
      (pkt : Packet) (k msg_id : Text) (sess : NoiseSession lib) (b : ℕ)
      → Keeps (IsManager lib) (send_receipt env lib pkt k msg_id sess b)
  unfolding send_receipt
  send_receipt-IsManager pkt k msg_id sess b =
      search (keeps_rules, encrypt_for-IsManager env lib, answer_wire-IsManager) depth 12

  send_receipts-IsManager :
      (pkt : Packet) (k msg_id : Text) (sess : NoiseSession lib)
      → Keeps (IsManager lib) (send_receipts env lib pkt k msg_id sess)
  unfolding send_receipts
  send_receipts-IsManager pkt k msg_id sess = search (keeps_rules, send_receipt-IsManager) depth 12

  deliver-IsManager :
      (pkt : Packet) (k : Text) (sess : NoiseSession lib) (plaintext : Bytes)
      (parsed : Option Parsed)
      → Keeps (IsManager lib) (deliver env lib pkt k sess plaintext parsed)
  unfolding deliver
  deliver-IsManager pkt k sess plaintext none = Keeps-pure tt
  deliver-IsManager pkt k sess plaintext (some (receipt_for ref)) = search (act-IsManager lib)
  deliver-IsManager pkt k sess plaintext (some (received_file msg_id path mime name)) =
      search (keeps_rules, act-IsManager lib, send_receipts-IsManager) depth 12
  deliver-IsManager pkt k sess plaintext (some (text_message msg_id content)) =
      search (keeps_rules, ask-IsManager lib, act-IsManager lib, send_receipts-IsManager) depth 12

  read_plaintext-IsManager :
      (pkt : Packet) (k : Text) (sess : NoiseSession lib) (plaintext : Option Bytes)
      → Keeps (IsManager lib) (read_plaintext env lib pkt k sess plaintext)
  unfolding read_plaintext
  read_plaintext-IsManager pkt k sess none = count_failure-IsManager k
  read_plaintext-IsManager pkt k sess (some plaintext) =
      search
        (
          keeps_rules,
          remove_failures-IsManager lib,
          parse_incoming-IsManager env lib,
          deliver-IsManager,
        )
        depth 12

  open_message-IsManager :
      (pkt : Packet) (k : Text) (known : Option (NoiseSession lib))
      → Keeps (IsManager lib) (open_message env lib pkt k known)
  unfolding open_message
  open_message-IsManager pkt k none = force_handshake-IsManager k
  open_message-IsManager pkt k (some sess) =
      let r = decrypt lib pkt.payload sess in
      Keeps-bind (modify (keep_session lib k r.0)) (λ _. read_plaintext env lib pkt k r.0 r.1)
        (keep_session-IsManager lib k r.0) (λ _. read_plaintext-IsManager pkt k r.0 r.1)

  handle_noise_encrypted-IsManager :
      (pkt : Packet) (k : Text) → Keeps (IsManager lib) (handle_noise_encrypted env lib pkt k)
  unfolding handle_noise_encrypted
  handle_noise_encrypted-IsManager pkt k = search (keeps_rules, open_message-IsManager) depth 12

  handle_file_transfer-IsManager :
      (pkt : Packet) (k : Text) → Keeps (IsManager lib) (handle_file_transfer env lib pkt k)
  unfolding handle_file_transfer
  handle_file_transfer-IsManager pkt k =
      search (keeps_rules, ask-IsManager lib, act-IsManager lib, save_received_file-IsManager) depth
        12

  handle_public_message-IsManager :
      (pkt : Packet) (k : Text) → Keeps (IsManager lib) (handle_public_message env lib pkt k)
  unfolding handle_public_message
  handle_public_message-IsManager pkt k =
      search (keeps_rules, ask-IsManager lib, act-IsManager lib) depth 12

  dispatch-IsManager : (pkt : Packet) (k : Text) → Keeps (IsManager lib) (dispatch env lib pkt k)
  unfolding dispatch handle_request_sync
  dispatch-IsManager pkt k =
      search
        (
          keeps_rules,
          handle_announce-IsManager env lib,
          handle_noise_handshake-IsManager env lib,
          handle_noise_encrypted-IsManager,
          handle_file_transfer-IsManager,
          handle_public_message-IsManager,
          handle_leave-IsManager env lib,
          echo_announce-IsManager env lib,
        )
        depth 20

  note_seen-IsManager : (k : Text) → Keeps (IsManager lib) (note_seen env lib k)
  unfolding note_seen
  note_seen-IsManager k =
      search (keeps_rules, ask-IsManager lib, set_last_seen-IsManager lib) depth 12

  pub handle_packet-IsManager : (pkt : Packet) → Keeps (IsManager lib) (handle_packet env lib pkt)
  unfolding handle_packet
  handle_packet-IsManager pkt =
      search (keeps_rules, note_seen-IsManager, dispatch-IsManager) depth 12
