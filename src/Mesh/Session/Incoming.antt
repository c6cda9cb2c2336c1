-- ===== src/Mesh/Session/Incoming.antt =====
-- `_parse_incoming` of server/bitchatd/mesh/session_manager.py, with what it saves.
pub mod RoundTrip
use bit_chat_pi.Prelude.{
  Option, [], if◌then◌else◌, is_some, leb, length, ltb, min, none, not, some, ℕ, ◌&&◌, ◌++◌, ◌==◌,
  ◌∷◌, list_eq,
}
use bit_chat_pi.Bytes.{Bytes}
use bit_chat_pi.Text.{Text, text}
use bit_chat_pi.Text.Utf8.{utf8_decode, utf8_decode_replace}
use bit_chat_pi.Exec.{attempt, lift, pure, ◌>>=◌, ◌>>◌}
use bit_chat_pi.Crypto.Noise.{NoiseLibrary}
use bit_chat_pi.Mesh.Session.State.{Environment, Run, ask, file}
use bit_chat_pi.Mesh.Session.Sniff.{find_file, sniff_file}
use bit_chat_pi.Mesh.Session.Files.{
  Parsed, receive_file, receive_new_file, received_file, save_received_file, text_message,
}
use bit_chat_pi.Mesh.Session.Parse.{
  TransferFields, decompressed_file, file_at, find_in_512, or_bytes, parse_content, parse_legacy,
  parse_receipt, parse_standard, parse_transfer,
}

-- A caught exception and a format that does not fit go on in the same way.
abbrev pub joined : Option (Option Parsed) → Option Parsed
joined none = none
joined (some o) = o

module _ (lib : NoiseLibrary) where
  -- The next format is tried where there is no answer yet.
  abbrev pub answered_or : Run lib (Option Parsed) → Option Parsed → Run lib (Option Parsed)
  answered_or next (some p) = pure (some p)
  answered_or next none = next

  abbrev pub or_then : Run lib (Option Parsed) → Run lib (Option Parsed) → Run lib (Option Parsed)
  or_then m next = m >>= answered_or next

  -- A format in a `try`.
  abbrev pub or_else_try :
      Run lib (Option Parsed) → Run lib (Option Parsed) → Run lib (Option Parsed)
  or_else_try m next = attempt m >>= λ o. answered_or next (joined o)

module _ (env : Environment) (lib : NoiseLibrary) where
  unfoldable pub receive_standard : Text × ℕ × Bytes → Run lib (Option Parsed)
  receive_standard (msg_id, msg_type, rest) =
      if msg_type == 1
      then (do content ← lift (parse_content rest); pure (some (text_message msg_id content)))
      else receive_file env lib msg_id (or_bytes (find_file (min 32 (length rest)) rest) rest)

  unfoldable pub receive_transfer : TransferFields → Run lib (Option Parsed)
  receive_transfer t = do
    msg_id ← ask lib env.uuid4
    let kind = sniff_file t.file_data
    saved ← save_received_file env lib msg_id t.file_data
    let mime = if ltb 0 (length t.mime_type) then utf8_decode_replace t.mime_type else kind.1
    let name = if ltb 0 (length t.fname) then utf8_decode_replace t.fname else text "file" ++ kind.0
    pure (some (received_file msg_id saved.0 mime name))

  -- Contents that are UTF-8 are a message, and others a file.
  unfoldable pub receive_contents : Text → Bytes → Option Text → Run lib (Option Parsed)
  receive_contents msg_id content_data (some content) = pure (some (text_message msg_id content))
  receive_contents msg_id content_data none =
      receive_file env lib msg_id (file_at (0 ∷ 1 ∷ 4 ∷ 8 ∷ []) content_data)

  unfoldable pub receive_legacy : Text × Bytes → Run lib (Option Parsed)
  receive_legacy (msg_id, content_data) =
      receive_contents msg_id content_data (utf8_decode content_data)

  abbrev pub receive_found : Option Bytes → Run lib (Option Parsed)
  receive_found none = pure none
  receive_found (some found) = receive_new_file env lib found

  -- The last three: a known file in the bytes, one in what they decompress to, and bytes that are no text.
  unfoldable pub receive_raw : Bytes → Run lib (Option Parsed)
  receive_raw plaintext =
      receive_found (if ltb 8 (length plaintext) then find_in_512 plaintext else none)

  unfoldable pub receive_compressed : Bytes → Run lib (Option Parsed)
  receive_compressed plaintext = receive_found (decompressed_file env.z plaintext)

  unfoldable pub receive_blob : Bytes → Run lib (Option Parsed)
  receive_blob plaintext =
      if leb 500 (length plaintext) && not (is_some (utf8_decode plaintext))
      then receive_new_file env lib plaintext
      else pure none

  abbrev pub when_parsed :
      {A : Type 0} → Option A → (A → Run lib (Option Parsed)) → Run lib (Option Parsed)
  when_parsed none f = pure none
  when_parsed (some a) f = f a

  unfoldable pub parse_incoming : Bytes → Run lib (Option Parsed)
  parse_incoming plaintext = or_then lib (pure (parse_receipt plaintext)) (
      or_else_try lib (when_parsed (parse_standard plaintext) receive_standard) (
        or_else_try lib (when_parsed (parse_transfer plaintext) receive_transfer) (
          or_else_try lib (when_parsed (parse_legacy plaintext) receive_legacy) (
            or_then lib (receive_raw plaintext)
              (or_then lib (receive_compressed plaintext) (receive_blob plaintext))))))
