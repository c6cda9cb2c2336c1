-- ===== src/Mesh/Session/Pending.antt =====
-- Messages that wait for a session: `_drain_pending_sends` and `cancel_pending_sends` of
-- server/bitchatd/mesh/session_manager.py.
pub mod Queue
pub mod Drain
use bit_chat_pi.Prelude.{
  Bool, List, Option, [], false, if◌then◌else◌, length, ltb, none, some, true, ℕ, ◌-◌, ◌∷◌, list_eq,
}
use bit_chat_pi.Bytes.{Bytes}
use bit_chat_pi.Text.{Text}
use bit_chat_pi.Text.Unhex.{unhex}
use bit_chat_pi.Exec.{gets, lift, modify, pure, ◌>>=◌, ◌>>◌}
use bit_chat_pi.Dict.{find_or, remove, set}
use bit_chat_pi.Protocol.MessageType
use bit_chat_pi.Crypto.Noise.{NoiseLibrary, NoiseSession, encrypt, failed, handshake, transport}
use bit_chat_pi.Mesh.Session.State.{
  Environment, Manager, PendingSend, Run, act, ask, message_delivered, publish,
}
use bit_chat_pi.Mesh.Session.Payload.{encode_message_payload}
use bit_chat_pi.Mesh.Session.Outgoing.{send_private}

-- `_PENDING_SEND_TTL`
abbrev pub pending_send_ttl_ms : ℕ
pending_send_ttl_ms = 600_000

unfoldable pub fresh_sends : ℕ → List PendingSend → List PendingSend
fresh_sends now [] = []
fresh_sends now (q ∷ queued) =
    if ltb (now - q.queued_at) pending_send_ttl_ms
    then q ∷ fresh_sends now queued
    else fresh_sends now queued

abbrev pub filled : Option Bytes → Option Bytes
filled none = none
filled (some []) = none
filled (some (b ∷ bs)) = some (b ∷ bs)

module _ (lib : NoiseLibrary) where
  abbrev pub is_established : NoiseSession lib → Bool
  is_established s = elim s.state [ transport ↦ true | handshake ↦ false | failed ↦ false ]

  -- A session object stands in the dictionary too: what a call does to it is seen there.
  abbrev pub keep_session : Text → NoiseSession lib → Manager lib → Manager lib
  keep_session peer_hex sess s = record s { sessions = set peer_hex sess s.sessions }

  unfoldable pub cancel_pending_sends : Text → Run lib ℕ
  cancel_pending_sends to_hex = do
    cancelled ← gets (λ s. find_or to_hex [] s.pending_sends)
    modify (λ s. record s { pending_sends = remove to_hex s.pending_sends })
    pure (length cancelled)

module _ (env : Environment) (lib : NoiseLibrary) where
  -- `sess.encrypt(payload)`, with the changed session.
  unfoldable pub encrypt_for :
      Text → NoiseSession lib → Bytes → Run lib (NoiseSession lib × Option Bytes)
  encrypt_for peer_hex sess payload = do
    t ← ask lib env.monotonic
    t' ← ask lib env.monotonic
    let r = encrypt lib t t' payload sess
    modify (keep_session lib peer_hex r.0)
    pure r

  -- A message of the queue that was encrypted is sent and reported; one that was not is lost.
  unfoldable pub deliver_queued : Text → Bytes → PendingSend → Option Bytes → Run lib (Unit {0})
  deliver_queued peer_hex recipient_id q none = pure tt
  deliver_queued peer_hex recipient_id q (some wire) = do
    send_private env lib MessageType.noise_encrypted recipient_id wire
    act lib (publish (message_delivered q.msg_id peer_hex))

  -- The loop over the queue.
  unfoldable pub send_queued :
      Text → Bytes → List PendingSend → NoiseSession lib → Run lib (Unit {0})
  send_queued peer_hex recipient_id [] sess = pure tt
  send_queued peer_hex recipient_id (q ∷ queued) sess = do
    payload ← lift (encode_message_payload q.content q.msg_id)
    r ← encrypt_for peer_hex sess payload
    deliver_queued peer_hex recipient_id q (filled r.1)
    send_queued peer_hex recipient_id queued r.0

  -- The queue without what is too old; an identifier that is not hexadecimal ends the call.
  unfoldable pub send_fresh :
      Text → NoiseSession lib → Option Bytes → List PendingSend → Run lib (Unit {0})
  send_fresh peer_hex sess recipient_id [] = pure tt
  send_fresh peer_hex sess none (q ∷ queued) = pure tt
  send_fresh peer_hex sess (some recipient_id) (q ∷ queued) =
      send_queued peer_hex recipient_id (q ∷ queued) sess

  unfoldable pub drain_pending_sends : Text → NoiseSession lib → Run lib (Unit {0})
  drain_pending_sends peer_hex sess = do
    queued ← gets (λ s. find_or peer_hex [] s.pending_sends)
    modify (λ s. record s { pending_sends = remove peer_hex s.pending_sends })
    now ← ask lib env.clock
    send_fresh peer_hex sess (unhex peer_hex) (fresh_sends now queued)
