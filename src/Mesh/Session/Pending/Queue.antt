-- ===== src/Mesh/Session/Pending/Queue.antt =====
-- What becomes of a queue of messages, and the calls of `encrypt` that send it.
use bit_chat_pi.Protocol.Constants.{noise_rekey_msg_limit_session, noise_rekey_time_ms}
use bit_chat_pi.Mesh.Session.Parse.{or_bytes}
use bit_chat_pi.Prelude.{
  All, Bool, List, Option, [], ap, arith, if◌then◌else◌, is_some, length, length-append, none, refl,
  some, suc, ℕ, ◌+◌, ◌-◌, ◌<◌, ◌∷◌, ◌≡◌, ◌≤◌, list_eq,
}
use bit_chat_pi.Bytes.{Bytes, length-to_be, to_be}
use bit_chat_pi.Text.{Text}
use bit_chat_pi.Crypto.Noise.{NoiseLibrary, NoiseSession}
use bit_chat_pi.Crypto.Noise.Sealing.{InEpoch, NoiseLaws, Sealed, Sending}
use bit_chat_pi.Protocol.MessageType
use bit_chat_pi.Mesh.Session.State.{
  Action, Environment, PendingSend, message_delivered, publish, send_packet,
}
use bit_chat_pi.Mesh.Session.Outgoing.{private_packet}
use bit_chat_pi.Mesh.Session.Payload.{encode_message_payload}
use bit_chat_pi.Mesh.Session.Pending.{filled}

module _ (env : Environment) (lib : NoiseLibrary) (laws : NoiseLaws lib) where
  -- What one queued message becomes: a packet with the message under the key, and a report.
  pub record DeliveredOne (k : laws.Key) (peer_hex : Text) (recipient_id : Bytes) (q : PendingSend)
      (packet report : Action) : Type 0 where
    pub payload : Bytes
    pub wire : Bytes
    pub ts : ℕ
    pub encoded : encode_message_payload q.content q.msg_id ≡ some payload
    pub sealed : Sealed lib laws k wire payload
    pub is_packet :
        packet ≡ send_packet (private_packet env MessageType.noise_encrypted recipient_id wire ts)
    pub is_report : report ≡ publish (message_delivered q.msg_id peer_hex)

  -- The actions are those of the messages, in their order, and no other.
  abbrev pub Delivered : laws.Key → Text → Bytes → List PendingSend → List Action → Type 0
  Delivered k peer_hex recipient_id [] [] = Unit
  Delivered k peer_hex recipient_id [] (a ∷ actions) = ⊥
  Delivered k peer_hex recipient_id (q ∷ qs) [] = ⊥
  Delivered k peer_hex recipient_id (q ∷ qs) (a ∷ []) = ⊥
  Delivered k peer_hex recipient_id (q ∷ qs) (a ∷ b ∷ actions) =
      DeliveredOne k peer_hex recipient_id q a b × Delivered k peer_hex recipient_id qs actions

  -- Whether `encode_message_payload` accepts a message.
  abbrev pub is_encodable : PendingSend → Bool
  is_encodable q = is_some (encode_message_payload q.content q.msg_id)

  -- The messages before the first that is not accepted.
  abbrev pub encodable_front : List PendingSend → List PendingSend
  encodable_front [] = []
  encodable_front (q ∷ qs) = if is_encodable q then q ∷ encodable_front qs else []

  -- How the loop ends: a message that is not accepted raises struct.error.
  abbrev pub outcome : List PendingSend → Option (Unit {0})
  outcome [] = some tt
  outcome (q ∷ qs) = if is_encodable q then outcome qs else none

  -- The calls of `encrypt` for the queue, from the clock reading `n` on.
  abbrev pub schedule : ℕ → List PendingSend → List (Sending lib laws)
  schedule n [] = []
  schedule n (q ∷ qs) =
      record {
        now = env.monotonic n;
        now' = env.monotonic (n + 1);
        plaintext = or_bytes (encode_message_payload q.content q.msg_id) [];
      }
      ∷ schedule (n + 1 + 1 + 1) qs

  -- No rekeying falls due for as many messages.
  pub record StaysInEpoch (sess : NoiseSession lib) (messages : ℕ) : Type 0 where
    pub early : (i : ℕ) → env.monotonic i - sess.session_start < noise_rekey_time_ms
    pub nonces : sess.send_nonce ≤ sess.msg_count
    pub few : sess.msg_count + messages ≤ noise_rekey_msg_limit_session

  schedule_early :
      (sess : NoiseSession lib) (n : ℕ) (qs : List PendingSend)
      → ((i : ℕ) → env.monotonic i - sess.session_start < noise_rekey_time_ms)
      → All (λ c. c.now - sess.session_start < noise_rekey_time_ms) (schedule n qs)
  schedule_early sess n [] early = tt
  schedule_early sess n (q ∷ qs) early = (early n, schedule_early sess (n + 1 + 1 + 1) qs early)

  length-schedule : (n : ℕ) (qs : List PendingSend) → length (schedule n qs) ≡ length qs
  length-schedule n [] = refl
  length-schedule n (q ∷ qs) = ap suc (length-schedule (n + 1 + 1 + 1) qs)

  pub schedule-InEpoch :
      (sess : NoiseSession lib) (n : ℕ) (qs : List PendingSend)
      → StaysInEpoch sess (length qs)
      → InEpoch lib laws (schedule n qs) sess
  schedule-InEpoch sess n qs room = (
    schedule_early sess n qs room.early,
    room.nonces,
    omega (arith, room.few, length-schedule n qs),
  )

  filled_long : (wire : Bytes) → 0 < length wire → filled (some wire) ≡ some wire
  filled_long [] h = absurd (omega arith)
  filled_long (b ∷ bs) h = refl

  pub Sealed-filled :
      (k : laws.Key) (wire payload : Bytes)
      → Sealed lib laws k wire payload
      → filled (some wire) ≡ some wire
  Sealed-filled k wire payload sealed =
      let ct = (lib.encrypt_with_ad (lib.set_nonce sealed.nonce sealed.cipher) [] payload).1 in
      filled_long wire (
        omega (
          arith,
          ap length sealed.shape,
          length-append (to_be 4 sealed.nonce) ct,
          length-to_be 4 sealed.nonce,
        ))
