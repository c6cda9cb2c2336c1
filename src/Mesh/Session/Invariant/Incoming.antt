-- ===== src/Mesh/Session/Invariant/Incoming.antt =====
-- Reading and saving what a peer sent keeps the invariant of the session manager.
use bit_chat_pi.Text.Utf8.{utf8_decode}
use bit_chat_pi.Prelude.{
  Option, [], if◌then◌else◌, is_some, leb, length, ltb, none, not, some, ℕ, ◌&&◌, ◌∷◌, list_eq,
}
use bit_chat_pi.Bytes.{Bytes}
use bit_chat_pi.Text.{Text, text}
use bit_chat_pi.Exec.{attempt, pure}
use bit_chat_pi.Exec.Keeps.{Keeps, Keeps-attempt, Keeps-bind, Keeps-if, Keeps-pure, keeps_rules}
use bit_chat_pi.Crypto.Noise.{NoiseLibrary}
use bit_chat_pi.Mesh.Session.State.{Environment, Run}
use bit_chat_pi.Mesh.Session.Files.{
  Parsed, receive_file, receive_new_file, save_received_file, text_message,
}
use bit_chat_pi.Mesh.Session.Parse.{
  TransferFields, decompressed_file, file_at, find_in_512, parse_legacy, parse_receipt,
  parse_standard, parse_transfer,
}
use bit_chat_pi.Mesh.Session.Incoming.{
  answered_or, joined, or_else_try, or_then, parse_incoming, receive_blob, receive_compressed,
  receive_contents, receive_found, receive_legacy, receive_raw, receive_standard, receive_transfer,
  when_parsed,
}
use bit_chat_pi.Mesh.Session.Invariant.{IsManager, act-IsManager, ask-IsManager}

module _ (env : Environment) (lib : NoiseLibrary) where
  pub save_received_file-IsManager :
      (msg_id : Text) (contents : Bytes)
      → Keeps (IsManager lib) (save_received_file env lib msg_id contents)
  unfolding save_received_file
  save_received_file-IsManager msg_id contents =
      search (keeps_rules, ask-IsManager lib, act-IsManager lib) depth 12

  receive_file-IsManager :
      (msg_id : Text) (contents : Bytes)
      → Keeps (IsManager lib) (receive_file env lib msg_id contents)
  unfolding receive_file
  receive_file-IsManager msg_id contents =
      search (keeps_rules, save_received_file-IsManager) depth 12

  receive_found-IsManager :
      (found : Option Bytes) → Keeps (IsManager lib) (receive_found env lib found)
  unfolding receive_new_file
  receive_found-IsManager none = Keeps-pure none
  receive_found-IsManager (some found) =
      search (keeps_rules, ask-IsManager lib, receive_file-IsManager) depth 12

  receive_standard-IsManager :
      (x : Text × ℕ × Bytes) → Keeps (IsManager lib) (receive_standard env lib x)
  unfolding receive_standard
  receive_standard-IsManager (msg_id, msg_type, rest) =
      search (keeps_rules, receive_file-IsManager) depth 12

  receive_transfer-IsManager :
      (t : TransferFields) → Keeps (IsManager lib) (receive_transfer env lib t)
  unfolding receive_transfer
  receive_transfer-IsManager t =
      search (keeps_rules, ask-IsManager lib, save_received_file-IsManager) depth 12

  receive_contents-IsManager :
      (msg_id : Text) (contents : Bytes) (text : Option Text)
      → Keeps (IsManager lib) (receive_contents env lib msg_id contents text)
  unfolding receive_contents
  receive_contents-IsManager msg_id contents (some text) =
      Keeps-pure (some (text_message msg_id text))
  receive_contents-IsManager msg_id contents none =
      receive_file-IsManager msg_id (file_at (0 ∷ 1 ∷ 4 ∷ 8 ∷ []) contents)

  receive_legacy-IsManager : (x : Text × Bytes) → Keeps (IsManager lib) (receive_legacy env lib x)
  unfolding receive_legacy
  receive_legacy-IsManager (msg_id, contents) =
      receive_contents-IsManager msg_id contents (utf8_decode contents)

  when_parsed-IsManager :
      {A : Type 0} (o : Option A) (f : A → Run lib (Option Parsed))
      → ((a : A) → Keeps (IsManager lib) (f a))
      → Keeps (IsManager lib) (when_parsed env lib o f)
  when_parsed-IsManager none f h = Keeps-pure none
  when_parsed-IsManager (some a) f h = h a

  answered_or-IsManager :
      (next : Run lib (Option Parsed)) (o : Option Parsed)
      → Keeps (IsManager lib) next
      → Keeps (IsManager lib) (answered_or lib next o)
  answered_or-IsManager next none h = h
  answered_or-IsManager next (some p) h = Keeps-pure (some p)

  or_then-IsManager :
      (m next : Run lib (Option Parsed))
      → Keeps (IsManager lib) m
      → Keeps (IsManager lib) next
      → Keeps (IsManager lib) (or_then lib m next)
  or_then-IsManager m next h k =
      Keeps-bind m (answered_or lib next) h (λ o. answered_or-IsManager next o k)

  or_else_try-IsManager :
      (m next : Run lib (Option Parsed))
      → Keeps (IsManager lib) m
      → Keeps (IsManager lib) next
      → Keeps (IsManager lib) (or_else_try lib m next)
  or_else_try-IsManager m next h k =
      Keeps-bind (attempt m) (λ o. answered_or lib next (joined o)) (Keeps-attempt m h)
        (λ o. answered_or-IsManager next (joined o) k)

  receive_blob-IsManager :
      (plaintext : Bytes) → Keeps (IsManager lib) (receive_blob env lib plaintext)
  unfolding receive_blob
  receive_blob-IsManager plaintext =
      Keeps-if (leb 500 (length plaintext) && not (is_some (utf8_decode plaintext)))
        (receive_new_file env lib plaintext) (pure none) (receive_found-IsManager (some plaintext))
        (Keeps-pure none)

  pub parse_incoming-IsManager :
      (plaintext : Bytes) → Keeps (IsManager lib) (parse_incoming env lib plaintext)
  unfolding parse_incoming receive_raw receive_compressed
  parse_incoming-IsManager plaintext =
      let raw =
        or_then-IsManager (receive_raw env lib plaintext)
          (or_then lib (receive_compressed env lib plaintext) (receive_blob env lib plaintext))
          (receive_found-IsManager
            (if ltb 8 (length plaintext) then find_in_512 plaintext else none))
          (or_then-IsManager (receive_compressed env lib plaintext) (receive_blob env lib plaintext)
            (receive_found-IsManager (decompressed_file env.z plaintext))
            (receive_blob-IsManager plaintext)) in
      or_then-IsManager _ _ (Keeps-pure (parse_receipt plaintext)) (
        or_else_try-IsManager _ _
          (when_parsed-IsManager (parse_standard plaintext) (receive_standard env lib)
            receive_standard-IsManager)
          (or_else_try-IsManager _ _
            (when_parsed-IsManager (parse_transfer plaintext) (receive_transfer env lib)
              receive_transfer-IsManager)
            (or_else_try-IsManager _ _
              (when_parsed-IsManager (parse_legacy plaintext) (receive_legacy env lib)
                receive_legacy-IsManager)
              raw)))
