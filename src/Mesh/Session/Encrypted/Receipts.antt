-- ===== src/Mesh/Session/Encrypted/Receipts.antt =====
-- Receipts are only added to what was sent and published before.
use bit_chat_pi.Prelude.{
  List, Option, [], ap, append_assoc, none, some, ℕ, ◌++◌, ◌∙◌, ◌∷◌, ◌≡◌, list_eq,
}
use bit_chat_pi.Bytes.{Bytes}
use bit_chat_pi.Text.{Text}
use bit_chat_pi.Exec.{modify}
use bit_chat_pi.Exec.Keeps.{Keeps, Keeps-pure, keeps_rules}
use bit_chat_pi.Crypto.Noise.{NoiseLibrary, NoiseSession}
use bit_chat_pi.Protocol.MessageType
use bit_chat_pi.Protocol.Packet.{Packet}
use bit_chat_pi.Mesh.Session.State.{Action, Environment, Manager, act, ask}
use bit_chat_pi.Mesh.Session.Outgoing.{send, send_private}
use bit_chat_pi.Mesh.Session.Pending.{encrypt_for, keep_session}
use bit_chat_pi.Mesh.Session.Encrypted.{answer_wire, send_receipt, send_receipts}

-- A trace that begins with `before`.
abbrev pub Extends : (lib : NoiseLibrary) → List Action → Manager lib → Type 0
Extends lib before s = (rest : List Action) × (s.trace ≡ before ++ rest)

module _ (env : Environment) (lib : NoiseLibrary) (before : List Action) where
  ask-Extends : {A : Type 0} (f : ℕ → A) → Keeps (Extends lib before) (ask lib f)
  ask-Extends f = record { at = λ s h. h }

  act-Extends : (a : Action) → Keeps (Extends lib before) (act lib a)
  act-Extends a = record {
    at = λ s (rest, e).
        (rest ++ a ∷ [], ap (λ t. t ++ a ∷ []) e ∙ append_assoc before rest (a ∷ []));
  }

  keep_session-Extends :
      (k : Text) (sess : NoiseSession lib)
      → Keeps (Extends lib before) (modify (keep_session lib k sess))
  keep_session-Extends k sess = record { at = λ s h. h }

  send_private-Extends :
      (type : ℕ) (recipient_id payload : Bytes)
      → Keeps (Extends lib before) (send_private env lib type recipient_id payload)
  unfolding send_private send
  send_private-Extends type recipient_id payload = search (keeps_rules, ask-Extends, act-Extends)

  encrypt_for-Extends :
      (k : Text) (sess : NoiseSession lib) (payload : Bytes)
      → Keeps (Extends lib before) (encrypt_for env lib k sess payload)
  unfolding encrypt_for
  encrypt_for-Extends k sess payload =
      search (keeps_rules, ask-Extends, keep_session-Extends k) depth 12

  answer_wire-Extends :
      (pkt : Packet) (wire : Option Bytes)
      → Keeps (Extends lib before) (answer_wire env lib pkt wire)
  unfolding answer_wire
  answer_wire-Extends pkt none = Keeps-pure tt
  answer_wire-Extends pkt (some wire) =
      send_private-Extends MessageType.noise_encrypted pkt.sender_id wire

  send_receipt-Extends :
      (pkt : Packet) (k msg_id : Text) (sess : NoiseSession lib) (b : ℕ)
      → Keeps (Extends lib before) (send_receipt env lib pkt k msg_id sess b)
  unfolding send_receipt
  send_receipt-Extends pkt k msg_id sess b =
      search (keeps_rules, encrypt_for-Extends, answer_wire-Extends) depth 12

  pub send_receipts-Extends :
      (pkt : Packet) (k msg_id : Text) (sess : NoiseSession lib)
      → Keeps (Extends lib before) (send_receipts env lib pkt k msg_id sess)
  unfolding send_receipts
  send_receipts-Extends pkt k msg_id sess = search (keeps_rules, send_receipt-Extends) depth 12
