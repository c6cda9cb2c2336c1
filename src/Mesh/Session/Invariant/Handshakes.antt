-- ===== src/Mesh/Session/Invariant/Handshakes.antt =====
-- Handshakes keep the invariant of the session manager.
use bit_chat_pi.Mesh.Session.Pending.{is_established, keep_session}
use bit_chat_pi.Prelude.{
  Bool, Option, [], arith, false, if◌then◌else◌, none, some, true, ℕ, ◌+◌, list_eq,
}
use bit_chat_pi.Bytes.{Bytes}
use bit_chat_pi.Text.{Text}
use bit_chat_pi.Exec.{modify, pure, ◌>>◌}
use bit_chat_pi.Exec.Keeps.{Keeps, Keeps-bind, Keeps-pure, Leads, Leads-bind, keeps_rules}
use bit_chat_pi.Dict.{set}
use bit_chat_pi.Crypto.Noise.{
  NoiseLibrary, NoiseSession, read_handshake_message, write_handshake_message,
}
use bit_chat_pi.Protocol.Packet.{Packet}
use bit_chat_pi.Protocol.MessageType
use bit_chat_pi.Mesh.Session.State.{Environment, Manager}
use bit_chat_pi.Mesh.Session.Outgoing.{send_private}
use bit_chat_pi.Mesh.Session.Handshake.{
  advance, answer_again, answer_msg1, clear_messages, find_session, finish, handle_noise_handshake,
  handle_with, new_responder, note_msg1, read_message, read_unanswered, restart,
  restart_established, restart_repeated, send_msg2, session_or_new,
}
use bit_chat_pi.Mesh.Session.Invariant.{
  IsManager, WithSession, ask-IsManager, set_timestamp-IsManager,
}
use bit_chat_pi.Mesh.Session.Invariant.Sessions.{
  clear_messages-IsManager, drop_session-IsManager, keep_session-IsManager,
  keep_session-WithSession, keep_session-again, set_msg1-WithSession, set_msg2-WithSession,
}
use bit_chat_pi.Mesh.Session.Invariant.Handlers.{
  drain_pending_sends-IsManager, send_private-IsManager,
}

module _ (env : Environment) (lib : NoiseLibrary) where
  pub new_responder-IsManager : (k : Text) → Keeps (IsManager lib) (new_responder env lib k)
  unfolding new_responder
  new_responder-IsManager k =
      search (keeps_rules, ask-IsManager lib, keep_session-IsManager lib k) depth 12

  session_or_new-IsManager :
      (pkt : Packet) (k : Text) (known : Option (NoiseSession lib))
      → Keeps (IsManager lib) (session_or_new env lib pkt k known)
  unfolding session_or_new
  session_or_new-IsManager pkt k (some sess) = Keeps-pure (some sess)
  session_or_new-IsManager pkt k none =
      search (keeps_rules, ask-IsManager lib, new_responder-IsManager, set_timestamp-IsManager lib)
        depth 12

  find_session-IsManager :
      (pkt : Packet) (k : Text) → Keeps (IsManager lib) (find_session env lib pkt k)
  unfolding find_session
  find_session-IsManager pkt k = search (keeps_rules, session_or_new-IsManager) depth 12

  restart-IsManager : (k : Text) → Keeps (IsManager lib) (restart env lib k)
  unfolding restart
  restart-IsManager k =
      Keeps-bind (new_responder env lib k) (λ sess. modify (clear_messages lib k) >> pure sess)
        (new_responder-IsManager k)
        (λ sess.
          Keeps-bind (modify (clear_messages lib k)) (λ _. pure sess)
            (clear_messages-IsManager lib k) (λ _. Keeps-pure sess))

  restart_established-IsManager :
      (pkt : Packet) (k : Text) (sess : NoiseSession lib)
      → Keeps (IsManager lib) (restart_established env lib pkt k sess)
  unfolding restart_established
  restart_established-IsManager pkt k sess = search (keeps_rules, restart-IsManager) depth 12

  answer_again-IsManager :
      (pkt : Packet) (k : Text) (sess : NoiseSession lib) (begun : Bool) (cached : Option Bytes)
      → Keeps (IsManager lib) (answer_again env lib pkt k sess begun cached)
  unfolding answer_again
  answer_again-IsManager pkt k sess begun (some msg2) =
      search (keeps_rules, send_private-IsManager env lib) depth 12
  answer_again-IsManager pkt k sess begun none = search (keeps_rules, restart-IsManager) depth 12

  restart_repeated-IsManager :
      (pkt : Packet) (k : Text) (sess : NoiseSession lib)
      → Keeps (IsManager lib) (restart_repeated env lib pkt k sess)
  unfolding restart_repeated
  restart_repeated-IsManager pkt k sess = search (keeps_rules, answer_again-IsManager) depth 12

  weaken : (k : Text) (s : Manager lib) → WithSession lib k s → IsManager lib s
  weaken k s h = h.valid

  -- The answer is kept where the session is.
  send_msg2-IsManager :
      (pkt : Packet) (k : Text) (outgoing : Option Bytes)
      → Leads (WithSession lib k) (IsManager lib) (send_msg2 env lib pkt k outgoing)
  unfolding send_msg2
  send_msg2-IsManager pkt k none = record {
    at = λ s h. (drop_session-IsManager lib k).at s h.valid;
  }
  send_msg2-IsManager pkt k (some outgoing) =
      Leads-bind
        (modify (λ (s : Manager lib). record s { pending_msg2 = set k outgoing s.pending_msg2 }))
        (λ _. send_private env lib MessageType.noise_handshake pkt.sender_id outgoing) (weaken k)
        (set_msg2-WithSession lib k outgoing)
        (λ _. record {
          at = λ s h.
              (send_private-IsManager env lib MessageType.noise_handshake pkt.sender_id outgoing).at
                s h.valid;
        })

  set_timestamp-WithSession :
      (k : Text) (v : ℕ)
      → Keeps (WithSession lib k) (
          modify
            (λ (s : Manager lib). record s { session_timestamps = set k v s.session_timestamps }))
  set_timestamp-WithSession k v = record {
    at = λ s h. record { valid = (set_timestamp-IsManager lib k v).at s h.valid; known = h.known };
  }

  answer_msg1-IsManager :
      (pkt : Packet) (k : Text) (sess : NoiseSession lib)
      → Leads (WithSession lib k) (IsManager lib) (answer_msg1 env lib pkt k sess)
  unfolding answer_msg1
  answer_msg1-IsManager pkt k sess = record {
    at = λ s h.
        let r = write_handshake_message lib (env.monotonic (s.calls + 1)) [] sess in
        let s1 : Manager lib = record s {
          calls = s.calls + 1 + 1;
          session_timestamps = set k (env.clock s.calls) s.session_timestamps;
        } in
        let h1 : WithSession lib k s1 = record {
          valid = ground (arith, (set_timestamp-IsManager lib k (env.clock s.calls)).at s h.valid);
          known = h.known;
        } in
        (send_msg2-IsManager pkt k r.1).at (keep_session lib k r.0 s1)
          ((keep_session-again lib k r.0).at s1 h1);
  }

  note_msg1-WithSession :
      (pkt : Packet) (k : Text) → Keeps (WithSession lib k) (note_msg1 env lib pkt k)
  unfolding note_msg1
  note_msg1-WithSession pkt k = search (keeps_rules, set_msg1-WithSession lib k) depth 12

  finish-IsManager :
      (k : Text) (sess : NoiseSession lib) → Keeps (IsManager lib) (finish env lib k sess)
  unfolding finish
  finish-IsManager k sess =
      search (keeps_rules, clear_messages-IsManager lib k, drain_pending_sends-IsManager env lib)
        depth 12

  finish_or_answer :
      (b : Bool) (pkt : Packet) (k : Text) (sess : NoiseSession lib)
      → Leads
          (WithSession lib k)
          (IsManager lib)
          (if b then finish env lib k sess else answer_msg1 env lib pkt k sess)
  finish_or_answer true pkt k sess = record { at = λ s h. (finish-IsManager k sess).at s h.valid }
  finish_or_answer false pkt k sess = answer_msg1-IsManager pkt k sess

  advance-IsManager :
      (pkt : Packet) (k : Text) (sess : NoiseSession lib) (answer : Option Bytes)
      → Leads (WithSession lib k) (IsManager lib) (advance env lib pkt k sess answer)
  unfolding advance
  advance-IsManager pkt k sess none = record {
    at = λ s h. (drop_session-IsManager lib k).at s h.valid;
  }
  advance-IsManager pkt k sess (some answer) =
      Leads-bind (note_msg1 env lib pkt k)
        (λ _.
          if is_established lib sess then finish env lib k sess else answer_msg1 env lib pkt k sess)
        (weaken k) (note_msg1-WithSession pkt k)
        (λ _. finish_or_answer (is_established lib sess) pkt k sess)

  read_message-IsManager :
      (pkt : Packet) (k : Text) (sess : NoiseSession lib)
      → Keeps (IsManager lib) (read_message env lib pkt k sess)
  unfolding read_message
  read_message-IsManager pkt k sess = record {
    at = λ s h.
        let r = read_handshake_message lib (env.monotonic s.calls) pkt.payload sess in
        let s1 : Manager lib = record s { calls = s.calls + 1 } in
        (advance-IsManager pkt k r.0 r.1).at (keep_session lib k r.0 s1)
          ((keep_session-WithSession lib k r.0).at s1 ((ask-IsManager lib env.monotonic).at s h));
  }

  read_unanswered-IsManager :
      (pkt : Packet) (k : Text) (found : Option (NoiseSession lib))
      → Keeps (IsManager lib) (read_unanswered env lib pkt k found)
  unfolding read_unanswered
  read_unanswered-IsManager pkt k none = Keeps-pure tt
  read_unanswered-IsManager pkt k (some sess) = read_message-IsManager pkt k sess

  handle_with-IsManager :
      (pkt : Packet) (k : Text) (found : Option (NoiseSession lib))
      → Keeps (IsManager lib) (handle_with env lib pkt k found)
  unfolding handle_with
  handle_with-IsManager pkt k none = Keeps-pure tt
  handle_with-IsManager pkt k (some sess) =
      search
        (
          keeps_rules, restart_established-IsManager, restart_repeated-IsManager,
          read_unanswered-IsManager,
        )
        depth 12

  pub handle_noise_handshake-IsManager :
      (pkt : Packet) (k : Text) → Keeps (IsManager lib) (handle_noise_handshake env lib pkt k)
  unfolding handle_noise_handshake
  handle_noise_handshake-IsManager pkt k =
      search (keeps_rules, find_session-IsManager, handle_with-IsManager) depth 12
