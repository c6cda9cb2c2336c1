-- ===== src/Mesh/Session/Files.antt =====
-- Received files: `_save_received_file` of server/bitchatd/mesh/session_manager.py. The directory is
-- absolute and not the root; that a file cannot be written is an answer of the environment.
use bit_chat_pi.Prelude.{Option, [], if◌then◌else◌, some, take, ◌++◌, ◌==◌, ◌=?◌, ◌∷◌, list_eq}
use bit_chat_pi.Bytes.{Bytes}
use bit_chat_pi.Text.{Text, text}
use bit_chat_pi.Exec.{pure, raise, ◌>>=◌, ◌>>◌}
use bit_chat_pi.Crypto.Noise.{NoiseLibrary, written}
use bit_chat_pi.Mesh.Session.State.{Environment, Run, act, ask, save}
use bit_chat_pi.Mesh.Session.Sniff.{sniff_file}

-- What a payload turned out to be.
pub data Parsed : Type 0 where
  receipt_for : (ref : Text) → Parsed
  text_message : (msg_id content : Text) → Parsed
  received_file : (msg_id path mime name : Text) → Parsed

-- A part of a path that pathlib keeps.
abbrev pub kept_part : Text → Text
kept_part [] = []
kept_part (c ∷ cs) = if (c ∷ cs) =? text "." then [] else text "/" ++ c ∷ cs

-- `str(directory / name)` for a relative name: `part` is read up to a slash.
unfoldable pub join_path : Text → Text → Text → Text
join_path directory part [] = directory ++ kept_part part
join_path directory part (c ∷ cs) =
    if c == b'/'
    then join_path (directory ++ kept_part part) [] cs
    else join_path directory (part ++ c ∷ []) cs

module _ (env : Environment) (lib : NoiseLibrary) where
  unfoldable pub save_received_file : Text → Bytes → Run lib (Text × Text)
  unfolding join_path sniff_file
  save_received_file msg_id contents = do
    let kind = sniff_file contents
    let path = join_path env.files_dir [] (text "bitchat_" ++ (take 8 msg_id ++ kind.0))
    written ← ask lib env.write_file
    if written then act lib (save path contents) else raise
    pure (path, kind.1)

  -- A file under its identifier, as it is reported.
  unfoldable pub receive_file : Text → Bytes → Run lib (Option Parsed)
  unfolding save_received_file
  receive_file msg_id contents = do
    saved ← save_received_file msg_id contents
    pure (some (received_file msg_id saved.0 saved.1 (text "file" ++ (sniff_file contents).0)))

  unfoldable pub receive_new_file : Bytes → Run lib (Option Parsed)
  unfolding receive_file
  receive_new_file contents = do msg_id ← ask lib env.uuid4; receive_file msg_id contents
