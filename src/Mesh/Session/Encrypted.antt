-- ===== src/Mesh/Session/Encrypted.antt =====
-- `_handle_noise_encrypted` of server/bitchatd/mesh/session_manager.py.
pub mod Receipts
use bit_chat_pi.Dict.{find_or, get, remove, set}
use bit_chat_pi.Prelude.{
  Option, [], false, get_elem?, if◌then◌else◌, leb, none, some, true, ℕ, ◌+◌, ◌/◌, ◌==◌, ◌∷◌,
  list_eq,
}
use bit_chat_pi.Bytes.{Bytes}
use bit_chat_pi.Text.{Text}
use bit_chat_pi.Text.Utf8.{utf8_encode}
use bit_chat_pi.Exec.{attempt, gets, lift, modify, pure, ◌>>=◌, ◌>>◌}
use bit_chat_pi.Protocol.MessageType
use bit_chat_pi.Protocol.Packet.{Packet}
use bit_chat_pi.Crypto.Noise.{NoiseLibrary, NoiseSession, decrypt}
use bit_chat_pi.Mesh.Session.State.{
  Environment, ReceiptType, Run, act, ask, delivery_receipt, file, message_event, publish,
  read_receipt, receipt,
}
use bit_chat_pi.Mesh.Session.Outgoing.{announce_now, make_leave, send, send_private}
use bit_chat_pi.Mesh.Session.Handshake.{new_responder}
use bit_chat_pi.Mesh.Session.Pending.{encrypt_for, filled, is_established, keep_session}
use bit_chat_pi.Mesh.Session.Files.{Parsed, receipt_for, received_file, text_message}
use bit_chat_pi.Mesh.Session.Incoming.{parse_incoming}

module _ (env : Environment) (lib : NoiseLibrary) where
  -- LEAVE and ANNOUNCE make the peer drop its session and begin again.
  unfoldable pub force_handshake : Text → Run lib (Unit {0})
  force_handshake peer_hex = do
    p ← make_leave env lib
    send env lib p
    new_responder env lib peer_hex
    announce_now env lib peer_hex

  -- The third message in a row that cannot be decrypted resets the session.
  unfoldable pub count_failure : Text → Run lib (Unit {0})
  count_failure peer_hex = do
    n ← gets (λ s. find_or peer_hex 0 s.decrypt_fail_count + 1)
    modify (λ s. record s { decrypt_fail_count = set peer_hex n s.decrypt_fail_count })
    if leb 3 n
        then (do
          modify (λ s. record s { decrypt_fail_count = remove peer_hex s.decrypt_fail_count })
          force_handshake peer_hex)
        else pure tt

  -- What was encrypted is sent back.
  unfoldable pub answer_wire : Packet → Option Bytes → Run lib (Unit {0})
  answer_wire pkt none = pure tt
  answer_wire pkt (some wire) = send_private env lib MessageType.noise_encrypted pkt.sender_id wire

  -- One receipt: a byte for its kind before the identifier.
  unfoldable pub send_receipt :
      Packet → Text → Text → NoiseSession lib → ℕ → Run lib (NoiseSession lib)
  send_receipt pkt peer_hex msg_id sess receipt_byte = do
    id_b ← lift (utf8_encode msg_id)
    r ← encrypt_for env lib peer_hex sess (receipt_byte ∷ id_b)
    answer_wire pkt (filled r.1)
    pure r.0

  -- The receipts of delivery and of reading, in a `try`.
  unfoldable pub send_receipts : Packet → Text → Text → NoiseSession lib → Run lib (Unit {0})
  send_receipts pkt peer_hex msg_id sess = do
    attempt (do
      sess' ← send_receipt pkt peer_hex msg_id sess 0x03
      send_receipt pkt peer_hex msg_id sess' 0x02)
    pure tt

  abbrev pub receipt_kind : Bytes → ReceiptType
  receipt_kind plaintext = elim (get_elem? plaintext 0) [
    | none ↦ delivery_receipt
    | some b ↦ if b == 0x02 then read_receipt else delivery_receipt
  ]

  -- What is published of a payload, and answered.
  unfoldable pub deliver :
      Packet → Text → NoiseSession lib → Bytes → Option Parsed → Run lib (Unit {0})
  deliver pkt peer_hex sess plaintext none = pure tt
  deliver pkt peer_hex sess plaintext (some (receipt_for ref)) =
      act lib (publish (receipt (receipt_kind plaintext) ref peer_hex))
  deliver pkt peer_hex sess plaintext (some (received_file msg_id path mime name)) = do
    nick ← gets (λ s. find_or peer_hex [] s.peers)
    act lib (publish (file peer_hex nick path mime name))
    send_receipts pkt peer_hex msg_id sess
  deliver pkt peer_hex sess plaintext (some (text_message msg_id content)) = do
    nick ← gets (λ s. find_or peer_hex [] s.peers)
    ts ← ask lib env.clock
    act lib (
        publish (
          message_event (record {
            from = peer_hex;
            to = none;
            nick = nick;
            content = content;
            private = true;
            self = false;
            auto = none;
            ts = ts / 1000;
            msg_id = msg_id;
            queued = false;
          })))
    send_receipts pkt peer_hex msg_id sess

  -- What follows decryption.
  unfoldable pub read_plaintext :
      Packet → Text → NoiseSession lib → Option Bytes → Run lib (Unit {0})
  read_plaintext pkt peer_hex sess none = count_failure peer_hex
  read_plaintext pkt peer_hex sess (some plaintext) = do
    modify (λ s. record s { decrypt_fail_count = remove peer_hex s.decrypt_fail_count })
    parsed ← parse_incoming env lib plaintext
    deliver pkt peer_hex sess plaintext parsed

  unfoldable pub open_message : Packet → Text → Option (NoiseSession lib) → Run lib (Unit {0})
  open_message pkt peer_hex none = force_handshake peer_hex
  open_message pkt peer_hex (some sess) = do
    let r = decrypt lib pkt.payload sess
    modify (keep_session lib peer_hex r.0)
    read_plaintext pkt peer_hex r.0 r.1

  abbrev pub established : Option (NoiseSession lib) → Option (NoiseSession lib)
  established none = none
  established (some sess) = if is_established lib sess then some sess else none

  unfoldable pub handle_noise_encrypted : Packet → Text → Run lib (Unit {0})
  handle_noise_encrypted pkt peer_hex = do
    known ← gets (λ s. established (get peer_hex s.sessions))
    open_message pkt peer_hex known
