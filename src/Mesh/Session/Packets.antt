-- ===== src/Mesh/Session/Packets.antt =====
-- `handle_packet` of server/bitchatd/mesh/session_manager.py, with the handlers of files and public
-- messages.
use bit_chat_pi.Mesh.Session.Files.{save_received_file}
use bit_chat_pi.Mesh.Session.Sniff.{find_file, sniff_file}
use bit_chat_pi.Dict.{find_or, set}
use bit_chat_pi.Mesh.Session.Parse.{or_bytes}
use bit_chat_pi.Prelude.{
  [], false, if◌then◌else◌, length, min, none, some, ◌++◌, ◌/◌, ◌==◌, list_eq,
}
use bit_chat_pi.Bytes.{Bytes}
use bit_chat_pi.Text.{Text, text}
use bit_chat_pi.Text.Hex.{hex}
use bit_chat_pi.Text.Utf8.{utf8_decode}
use bit_chat_pi.Exec.{gets, modify, pure, ◌>>=◌, ◌>>◌}
use bit_chat_pi.Protocol.MessageType
use bit_chat_pi.Protocol.Packet.{Packet}
use bit_chat_pi.Crypto.Noise.{NoiseLibrary}
use bit_chat_pi.Mesh.Session.State.{Environment, Run, act, ask, file, message_event, publish}
use bit_chat_pi.Mesh.Session.Announces.{handle_announce, handle_leave, handle_request_sync}
use bit_chat_pi.Mesh.Session.Handshake.{handle_noise_handshake}
use bit_chat_pi.Mesh.Session.Encrypted.{handle_noise_encrypted}

module _ (env : Environment) (lib : NoiseLibrary) where
  unfoldable pub handle_file_transfer : Packet → Text → Run lib (Unit {0})
  handle_file_transfer pkt peer_hex = do
    let actual = or_bytes (find_file (min 32 (length pkt.payload)) pkt.payload) pkt.payload
    msg_id ← ask lib env.uuid4
    saved ← save_received_file env lib msg_id actual
    nick ← gets (λ s. find_or peer_hex [] s.peers)
    act lib (publish (file peer_hex nick saved.0 saved.1 (text "file" ++ (sniff_file actual).0)))

  -- Text that is no UTF-8 is shown in hexadecimal.
  abbrev pub public_content : Bytes → Text
  public_content payload = elim (utf8_decode payload) [
    | none ↦ hex payload
    | some content ↦ content
  ]

  unfoldable pub handle_public_message : Packet → Text → Run lib (Unit {0})
  handle_public_message pkt peer_hex = do
    msg_id ← ask lib env.uuid4
    nick ← gets (λ s. find_or peer_hex [] s.peers)
    ts ← ask lib env.clock
    act lib (
        publish (
          message_event (record {
            from = peer_hex;
            to = none;
            nick = nick;
            content = public_content pkt.payload;
            private = false;
            self = false;
            auto = none;
            ts = ts / 1000;
            msg_id = msg_id;
            queued = false;
          })))

  unfoldable pub dispatch : Packet → Text → Run lib (Unit {0})
  dispatch pkt peer_hex =
      if pkt.type == MessageType.announce
      then handle_announce env lib pkt peer_hex
      else if pkt.type == MessageType.noise_handshake
      then handle_noise_handshake env lib pkt peer_hex
      else if pkt.type == MessageType.noise_encrypted
      then handle_noise_encrypted env lib pkt peer_hex
      else if pkt.type == MessageType.file_transfer
      then handle_file_transfer pkt peer_hex
      else if pkt.type == MessageType.message
      then handle_public_message pkt peer_hex
      else if pkt.type == MessageType.leave
      then handle_leave lib peer_hex
      else if pkt.type == MessageType.request_sync
      then handle_request_sync env lib peer_hex
      else pure tt

  unfoldable pub note_seen : Text → Run lib (Unit {0})
  note_seen peer_hex = do
    t ← ask lib env.clock
    modify (λ s. record s { peer_last_seen = set peer_hex t s.peer_last_seen })

  unfoldable pub handle_packet : Packet → Run lib (Unit {0})
  handle_packet pkt = do let peer_hex = hex pkt.sender_id; note_seen peer_hex; dispatch pkt peer_hex
