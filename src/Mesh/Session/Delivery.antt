-- ===== src/Mesh/Session/Delivery.antt =====
-- A message from one node to another: the command of a client of the one, the packet, and the event
-- for the clients of the other.
use bit_chat_pi.Mesh.Session.Received.{
  established-transport, handle_packet_opens, incoming_message, open_message_delivers,
}
use bit_chat_pi.Mesh.Session.Pending.Queue.{StaysInEpoch}
use bit_chat_pi.Mesh.Session.Pending.{encrypt_for}
use bit_chat_pi.Prelude.{
  Bool, Option, [], ap, false, length, refl, some, subst, sym, true, ◌++◌, ◌+◌, ◌<◌, ◌∙◌, ◌∷◌, ◌≡◌,
  list_eq,
}
use bit_chat_pi.Text.{Text, text}
use bit_chat_pi.Text.Hex.{hex}
use bit_chat_pi.Dict.{find_or, get, set}
use bit_chat_pi.Crypto.Noise.{NoiseLibrary, NoiseSession, encrypt}
use bit_chat_pi.Crypto.Noise.Sealing.{NoiseLaws, Receives, Sealed, Sending, Sends, encrypt-Sealed}
use bit_chat_pi.Protocol.MessageType
use bit_chat_pi.Protocol.Packet.{Packet}
use bit_chat_pi.Mesh.Session.State.{
  Environment, Manager, MessageEvent, message_event, publish, send_packet,
}
use bit_chat_pi.Mesh.Session.Packets.{handle_packet}
use bit_chat_pi.Bytes.{Bytes}
use bit_chat_pi.Text.Utf8.{utf8_encode}
use bit_chat_pi.Text.Utf8.RoundTrip.{IsAscii}
use bit_chat_pi.Mesh.Session.Incoming.RoundTrip.{encode_message_payload-framed, framed}
use bit_chat_pi.Mesh.Session.Encrypted.Receipts.{Extends}
use bit_chat_pi.Text.Unhex.{unhex}
use bit_chat_pi.Mesh.Session.Outgoing.{private_packet, send, send_private}
use bit_chat_pi.Mesh.Session.Commands.{
  dispatch_command, handle_command, is_empty, own_message, publish_own, run_send, send_or_queue,
  send_text, send_text_now, send_wire, sent,
}

module _ (lib : NoiseLibrary) (laws : NoiseLaws lib) where
  module _ (env : Environment) (s : Manager lib) (to content : Text) (auto : Bool)
      (recipient_id content_b : Bytes) (k : laws.Key) (sess : NoiseSession lib)
      (to_given : is_empty to ≡ false) (content_given : is_empty content ≡ false)
      (id : unhex to ≡ some recipient_id) (has_sess : get to s.sessions ≡ some sess)
      (sends : Sends lib laws k sess) (reachable : env.is_reachable s.calls ≡ true)
      (ascii : IsAscii (env.uuid4 (s.calls + 1))) (uuid : length (env.uuid4 (s.calls + 1)) ≡ 36)
      (coded : utf8_encode content ≡ some content_b) (short : length content_b < 256)
      (room : StaysInEpoch env lib laws sess 1) where
    -- The call of `encrypt`.
    sending : Sending lib laws
    sending = record {
      now = env.monotonic (s.calls + 1 + 1);
      now' = env.monotonic (s.calls + 1 + 1 + 1);
      plaintext = framed (env.uuid4 (s.calls + 1)) content_b;
    }

    sending-Sealed :
        let (sess', wire) =
          encrypt lib
            (env.monotonic (s.calls + 1 + 1))
            (env.monotonic (s.calls + 1 + 1 + 1))
            (framed (env.uuid4 (s.calls + 1)) content_b)
            sess in
        (w : Bytes) × (wire ≡ some w)
        × Sealed lib laws k w (framed (env.uuid4 (s.calls + 1)) content_b)
    unfolding sending
    sending-Sealed =
        let (w, e, sealed, sends_on, rest) =
          encrypt-Sealed lib laws k sess sending [] sends
            ((room.early (s.calls + 1 + 1), tt), room.nonces, room.few) in
        (w, e, sealed)

    -- The command answers, sends one packet and publishes the message.
    handle_command_sends :
        (wire : Bytes)
        → (encrypt lib
            (env.monotonic (s.calls + 1 + 1))
            (env.monotonic (s.calls + 1 + 1 + 1))
            (framed (env.uuid4 (s.calls + 1)) content_b)
            sess).1
          ≡ some wire
        → let (r, s') = handle_command env lib (send_text to content auto) s in
          let msg_id = env.uuid4 (s.calls + 1) in
          (r ≡ some (text "send", sent msg_id))
          × (s'.trace
              ≡ s.trace
                ++ send_packet (
                    private_packet env MessageType.noise_encrypted recipient_id wire
                      (env.clock (s.calls + 1 + 1 + 1 + 1)))
                  ∷ []
                ++ publish (
                    message_event (
                      own_message env lib s.nickname
                        (some to)
                        content
                        (some auto)
                        (env.clock (s.calls + 1 + 1 + 1 + 1 + 1))
                        msg_id
                        false))
                  ∷ [])
    unfolding handle_command dispatch_command run_send send_or_queue send_text_now encrypt_for
        send_wire send_private send publish_own
    handle_command_sends wire e =
        let payload =
          encode_message_payload-framed (env.uuid4 (s.calls + 1)) content content_b ascii uuid coded
            short in
        rw
          (
            to_given,
            content_given,
            has_sess,
            established-transport lib laws env sess sends.state,
            reachable,
            id,
            payload,
            e,
          )
          (refl, refl)

    -- A message of at most 255 bytes, for a peer that is reachable and has an established session of which no
    -- rekeying falls due, is answered with its identifier, sent as one packet and shown to the own clients; and a
    -- node that gets the packet and has the other end of the session shows its clients that text under that
    -- identifier, before anything else it does. Neither the recipient nor the text is empty, the recipient is
    -- hexadecimal, and identifiers are 36 ASCII characters; the ciphers decrypt what they encrypt.
    pub handle_packet-handle_command :
        (env' : Environment) (t : Manager lib) (sess' : NoiseSession lib)
        → get (hex env.identity.peer_id) t.sessions ≡ some sess'
        → Receives lib laws k sess'
        → let msg_id = env.uuid4 (s.calls + 1) in
          let (r, s') = handle_command env lib (send_text to content auto) s in
          (pkt : Packet) × (shown : MessageEvent) × (r ≡ some (text "send", sent msg_id))
          × (s'.trace ≡ s.trace ++ send_packet pkt ∷ [] ++ publish (message_event shown) ∷ [])
          × (pkt.recipient_id ≡ some recipient_id)
          × (shown.content ≡ content)
          × (shown.msg_id ≡ msg_id)
          × ((handle_packet env' lib pkt t).0 ≡ some tt)
          × Extends lib
              (t.trace
                ++ publish (
                    message_event (
                      incoming_message lib laws
                        (hex env.identity.peer_id)
                        (find_or (hex env.identity.peer_id) [] t.peers)
                        content
                        (env'.clock (t.calls + 1))
                        msg_id))
                  ∷ [])
              (handle_packet env' lib pkt t).1
    handle_packet-handle_command env' t sess' has_sess' receives =
        let (wire, e, sealed) = sending-Sealed in
        let msg_id = env.uuid4 (s.calls + 1) in
        let pkt =
          private_packet env MessageType.noise_encrypted recipient_id wire
            (env.clock (s.calls + 1 + 1 + 1 + 1)) in
        let (r, traced) = handle_command_sends wire e in
        let t1 : Manager lib = record t {
          calls = t.calls + 1;
          peer_last_seen = set (hex env.identity.peer_id) (env'.clock t.calls) t.peer_last_seen;
        } in
        let opens = handle_packet_opens lib laws env' t pkt k sess' has_sess' receives refl in
        let (done, shown) =
          open_message_delivers lib laws env' t pkt k sess' has_sess' receives refl msg_id content
            content_b ascii uuid coded short sealed t1 in
        (
          pkt,
          own_message env lib s.nickname (some to) content (some auto)
              (env.clock (s.calls + 1 + 1 + 1 + 1 + 1)) msg_id false,
          r,
          traced,
          refl,
          refl,
          refl,
          ap (λ x. x.0) opens ∙ done,
          subst
              (λ (x : Option (Unit {0}) × Manager lib).
                Extends lib
                  (t.trace
                    ++ publish (
                        message_event (
                          incoming_message lib laws (hex env.identity.peer_id)
                            (find_or (hex env.identity.peer_id) [] t.peers) content
                            (env'.clock (t.calls + 1)) msg_id))
                      ∷ [])
                  x.1)
              (sym opens) shown,
        )
