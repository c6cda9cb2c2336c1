-- ===== src/Mesh/Session/Payload.antt =====
-- The payloads of private messages and files: `_encode_message_payload` and `_encode_file_payload`
-- of server/bitchatd/mesh/session_manager.py. The identifier is a fresh UUID where the caller has none.
use bit_chat_pi.Prelude.{Option, length, some, ◌++◌, ◌>>=◌, ◌∷◌}
use bit_chat_pi.Bytes.{Bytes, pack}
use bit_chat_pi.Text.{Text}
use bit_chat_pi.Text.Utf8.{utf8_encode}

-- `none` is an exception: a surrogate in a text, or a length that its field cannot hold.
unfoldable pub encode_message_payload : Text → Text → Option Bytes
encode_message_payload content msg_id = do
  id_b ← utf8_encode msg_id
  content_b ← utf8_encode content
  id_length ← pack 2 (length id_b)
  content_length ← pack 1 (length content_b)
  some (0x01 ∷ (id_length ++ (id_b ++ (1 ∷ (content_length ++ content_b)))))

unfoldable pub encode_file_payload : Bytes → Text → Option Bytes
encode_file_payload contents msg_id = do
  id_b ← utf8_encode msg_id
  id_length ← pack 2 (length id_b)
  some (0x00 ∷ (id_length ++ (id_b ++ (2 ∷ contents))))
