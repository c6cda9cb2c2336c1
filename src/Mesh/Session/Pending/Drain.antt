-- ===== src/Mesh/Session/Pending/Drain.antt =====
-- What becomes of the messages that waited for a session when it is there.
use bit_chat_pi.Mesh.Session.Pending.Queue.{
  Delivered, Sealed-filled, StaysInEpoch, encodable_front, is_encodable, outcome, schedule,
  schedule-InEpoch,
}
use bit_chat_pi.Mesh.Session.Parse.{or_bytes}
use bit_chat_pi.Prelude.{
  List, Option, Option-cases, [], ap, append-nil, append_assoc, false, inl, inr, is_some, length,
  none, refl, some, subst, sym, true, ℕ, ◌++◌, ◌+◌, ◌∙◌, ◌∷◌, ◌≡◌, list_eq,
}
use bit_chat_pi.Bytes.{Bytes}
use bit_chat_pi.Text.{Text}
use bit_chat_pi.Dict.{find_or, get, remove, set}
use bit_chat_pi.Crypto.Noise.{NoiseLibrary, NoiseSession, encrypt}
use bit_chat_pi.Crypto.Noise.Sealing.{InEpoch, NoiseLaws, Sealed, Sends, encrypt-Sealed}
use bit_chat_pi.Protocol.MessageType
use bit_chat_pi.Mesh.Session.State.{
  Action, Environment, Manager, PendingSend, message_delivered, publish, send_packet,
}
use bit_chat_pi.Mesh.Session.Outgoing.{private_packet, send, send_private}
use bit_chat_pi.Mesh.Session.Payload.{encode_message_payload}
use bit_chat_pi.Mesh.Session.Pending.{
  deliver_queued, drain_pending_sends, encrypt_for, filled, fresh_sends, send_fresh, send_queued,
}
use bit_chat_pi.Text.Unhex.{unhex}
use bit_chat_pi.Dict.Keys.{IsDict, get-remove_self}

module _ (env : Environment) (lib : NoiseLibrary) (laws : NoiseLaws lib) where
  send_queued_step :
      (peer_hex : Text) (recipient_id : Bytes) (q : PendingSend) (qs : List PendingSend)
      (sess : NoiseSession lib) (s : Manager lib) (payload wire : Bytes)
      → encode_message_payload q.content q.msg_id ≡ some payload
      → let r = encrypt lib (env.monotonic s.calls) (env.monotonic (s.calls + 1)) payload sess in
        filled r.1 ≡ some wire
        → send_queued env lib peer_hex recipient_id (q ∷ qs) sess s
          ≡ send_queued env lib peer_hex recipient_id qs r.0 (record s {
            calls = s.calls + 1 + 1 + 1;
            sessions = set peer_hex r.0 s.sessions;
            trace =
                s.trace
                ++ send_packet (
                    private_packet env MessageType.noise_encrypted recipient_id wire
                      (env.clock (s.calls + 1 + 1)))
                  ∷ []
                ++ publish (message_delivered q.msg_id peer_hex) ∷ [];
          })
  unfolding send_queued encrypt_for deliver_queued send_private send
  send_queued_step peer_hex recipient_id q qs sess s payload wire e filled_with =
      rw (e, filled_with) refl

  send_queued_refused :
      (peer_hex : Text) (recipient_id : Bytes) (q : PendingSend) (qs : List PendingSend)
      (sess : NoiseSession lib) (s : Manager lib)
      → encode_message_payload q.content q.msg_id ≡ none
      → send_queued env lib peer_hex recipient_id (q ∷ qs) sess s ≡ (none, s)
  unfolding send_queued
  send_queued_refused peer_hex recipient_id q qs sess s e = rw e refl

  -- One message of the queue under the cipher of the session.
  encrypt_queued :
      (k : laws.Key) (sess : NoiseSession lib) (n : ℕ) (q : PendingSend) (qs : List PendingSend)
      (payload : Bytes)
      → Sends lib laws k sess
      → InEpoch lib laws (schedule env lib laws n (q ∷ qs)) sess
      → encode_message_payload q.content q.msg_id ≡ some payload
      → let (sess', wire) = encrypt lib (env.monotonic n) (env.monotonic (n + 1)) payload sess in
        (w : Bytes) × (wire ≡ some w)
        × Sealed lib laws k w payload
        × Sends lib laws k sess'
        × InEpoch lib laws (schedule env lib laws (n + 1 + 1 + 1) qs) sess'
  encrypt_queued k sess n q qs payload sends epoch e =
      let same : or_bytes (encode_message_payload q.content q.msg_id) [] ≡ payload =
        ap (λ o. or_bytes o []) e in
      subst
        (λ x.
          let (sess', wire) = encrypt lib (env.monotonic n) (env.monotonic (n + 1)) x sess in
          (w : Bytes) × (wire ≡ some w)
          × Sealed lib laws k w x
          × Sends lib laws k sess'
          × InEpoch lib laws (schedule env lib laws (n + 1 + 1 + 1) qs) sess')
        same
        (encrypt-Sealed lib laws k sess
          (record {
            now = env.monotonic n;
            now' = env.monotonic (n + 1);
            plaintext = or_bytes (encode_message_payload q.content q.msg_id) [];
          })
          (schedule env lib laws (n + 1 + 1 + 1) qs) sends epoch)

  -- What the loop over the queue has done.
  abbrev DoneWith :
      laws.Key
      → Text
      → Bytes
      → List PendingSend
      → Manager lib
      → Option (Unit {0}) × Manager lib
      → Type 0
  DoneWith k peer_hex recipient_id qs s x =
      (actions : List Action) × (x.0 ≡ outcome env lib laws qs)
      × (x.1.trace ≡ s.trace ++ actions)
      × (x.1.pending_sends ≡ s.pending_sends)
      × Delivered env lib laws k peer_hex recipient_id (encodable_front env lib laws qs) actions

  send_queued-Delivered :
      (k : laws.Key) (peer_hex : Text) (recipient_id : Bytes) (qs : List PendingSend)
      (sess : NoiseSession lib) (s : Manager lib)
      → Sends lib laws k sess
      → InEpoch lib laws (schedule env lib laws s.calls qs) sess
      → DoneWith k peer_hex recipient_id qs s (send_queued env lib peer_hex recipient_id qs sess s)
  send_queued-Delivered k peer_hex recipient_id [] sess s sends epoch =
      unfold send_queued in ([], refl, sym (append-nil s.trace), refl, tt)
  send_queued-Delivered k peer_hex recipient_id (q ∷ qs) sess s sends epoch =
      elim (Option-cases (encode_message_payload q.content q.msg_id)) [
        | inl e ↦
            let refused : is_encodable env lib laws q ≡ false = ap is_some e in
            rw refused (
              subst
                (λ (x : Option (Unit {0}) × Manager lib).
                  (actions : List Action) × (x.0 ≡ none)
                  × (x.1.trace ≡ s.trace ++ actions)
                  × (x.1.pending_sends ≡ s.pending_sends)
                  × Delivered env lib laws k peer_hex recipient_id [] actions)
                (sym (send_queued_refused peer_hex recipient_id q qs sess s e))
                ([], refl, sym (append-nil s.trace), refl, tt))
        | inr (payload, e) ↦
            let (w, ew, sealed, sends', epoch') =
              encrypt_queued k sess s.calls q qs payload sends epoch e in
            let r =
              encrypt lib (env.monotonic s.calls) (env.monotonic (s.calls + 1)) payload sess in
            let ts = env.clock (s.calls + 1 + 1) in
            let a =
              send_packet (private_packet env MessageType.noise_encrypted recipient_id w ts) in
            let b = publish (message_delivered q.msg_id peer_hex) in
            let s1 : Manager lib = record s {
              calls = s.calls + 1 + 1 + 1;
              sessions = set peer_hex r.0 s.sessions;
              trace = s.trace ++ a ∷ [] ++ b ∷ [];
            } in
            let step =
              send_queued_step peer_hex recipient_id q qs sess s payload w e
                (ap filled ew ∙ Sealed-filled env lib laws k w payload sealed) in
            let (actions, done, traced, pending, rest) =
              send_queued-Delivered k peer_hex recipient_id qs r.0 s1 sends' epoch' in
            let accepted : is_encodable env lib laws q ≡ true = ap is_some e in
            subst (DoneWith k peer_hex recipient_id (q ∷ qs) s) (sym step) (
              rw accepted (
                a ∷ b ∷ actions,
                done,
                traced
                    ∙ append_assoc (s.trace ++ a ∷ []) (b ∷ []) actions
                    ∙ append_assoc s.trace (a ∷ []) (b ∷ actions),
                pending,
                (
                  record {
                    payload = payload;
                    wire = w;
                    ts = ts;
                    encoded = e;
                    sealed = sealed;
                    is_packet = refl;
                    is_report = refl;
                  },
                  rest,
                ),
              ))
      ]

  send_fresh-some :
      (peer_hex : Text) (recipient_id : Bytes) (qs : List PendingSend) (sess : NoiseSession lib)
      (s : Manager lib)
      → send_fresh env lib peer_hex sess (some recipient_id) qs s
        ≡ send_queued env lib peer_hex recipient_id qs sess s
  unfolding send_fresh send_queued
  send_fresh-some peer_hex recipient_id [] sess s = refl
  send_fresh-some peer_hex recipient_id (q ∷ qs) sess s = refl

  -- With an established session of which no rekeying falls due while the queue is sent, each message that
  -- waited for less than ten minutes is encrypted and sent once, in the order in which they were queued, and
  -- reported as delivered, up to the first that cannot be encoded. Where there is one the call raises, and that
  -- message and those behind it are not sent. The queue is empty after in both cases. The peer's identifier is
  -- hexadecimal, and the keys of the dictionary of queues are distinct.
  pub drain_pending_sends-Delivered :
      (k : laws.Key) (peer_hex : Text) (recipient_id : Bytes) (sess : NoiseSession lib)
      (s : Manager lib)
      → unhex peer_hex ≡ some recipient_id
      → IsDict s.pending_sends
      → Sends lib laws k sess
      → let queue = fresh_sends (env.clock s.calls) (find_or peer_hex [] s.pending_sends) in
        StaysInEpoch env lib laws sess (length queue)
        → let (r, s') = drain_pending_sends env lib peer_hex sess s in
          (actions : List Action) × (r ≡ outcome env lib laws queue)
          × (s'.trace ≡ s.trace ++ actions)
          × (get peer_hex s'.pending_sends ≡ none)
          × Delivered env lib laws k peer_hex recipient_id
              (encodable_front env lib laws queue)
              actions
  unfolding drain_pending_sends
  drain_pending_sends-Delivered k peer_hex recipient_id sess s id dict sends room =
      let queue = fresh_sends (env.clock s.calls) (find_or peer_hex [] s.pending_sends) in
      let s1 : Manager lib = record s {
        pending_sends = remove peer_hex s.pending_sends;
        calls = s.calls + 1;
      } in
      let whole : drain_pending_sends env lib peer_hex sess s
          ≡ send_queued env lib peer_hex recipient_id queue sess s1 =
        ap (λ o. send_fresh env lib peer_hex sess o queue s1) id
        ∙ send_fresh-some peer_hex recipient_id queue sess s1 in
      let (actions, done, traced, pending, rest) =
        send_queued-Delivered k peer_hex recipient_id queue sess s1 sends
          (schedule-InEpoch env lib laws sess s1.calls queue room) in
      subst
        (λ (x : Option (Unit {0}) × Manager lib).
          (actions : List Action) × (x.0 ≡ outcome env lib laws queue)
          × (x.1.trace ≡ s.trace ++ actions)
          × (get peer_hex x.1.pending_sends ≡ none)
          × Delivered env lib laws k peer_hex recipient_id (encodable_front env lib laws queue)
              actions)
        (sym whole)
        (
          actions,
          done,
          traced,
          ap (get peer_hex) pending ∙ get-remove_self peer_hex s.pending_sends dict,
          rest,
        )
