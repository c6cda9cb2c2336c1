-- ===== src/Mesh/Session/Received.antt =====
-- The packet of a message at the other end of its session: the event for the clients.
use bit_chat_pi.Mesh.Session.Pending.{is_established}
use bit_chat_pi.Prelude.{
  Bool, [], ap, append-nil, false, length, none, refl, some, sym, true, ℕ, ◌++◌, ◌+◌, ◌/◌, ◌<◌, ◌∷◌,
  ◌≡◌, list_eq,
}
use bit_chat_pi.Text.{Text}
use bit_chat_pi.Text.Hex.{hex}
use bit_chat_pi.Dict.{find_or, get, remove, set}
use bit_chat_pi.Crypto.Noise.{NoiseLibrary, NoiseSession, decrypt, failed, handshake, transport}
use bit_chat_pi.Crypto.Noise.Sealing.{NoiseLaws, Receives, Sealed, decrypt-Sealed}
use bit_chat_pi.Protocol.MessageType
use bit_chat_pi.Protocol.Packet.{Packet}
use bit_chat_pi.Mesh.Session.State.{Environment, Manager, MessageEvent, message_event, publish}
use bit_chat_pi.Mesh.Session.Encrypted.{
  deliver, handle_noise_encrypted, open_message, read_plaintext, send_receipts,
}
use bit_chat_pi.Mesh.Session.Packets.{dispatch, handle_packet, note_seen}
use bit_chat_pi.Bytes.{Bytes}
use bit_chat_pi.Text.Utf8.{utf8_encode}
use bit_chat_pi.Text.Utf8.RoundTrip.{IsAscii}
use bit_chat_pi.Mesh.Session.Incoming.RoundTrip.{framed, parse_incoming-framed}
use bit_chat_pi.Mesh.Session.Encrypted.Receipts.{Extends, send_receipts-Extends}

module _ (lib : NoiseLibrary) (laws : NoiseLaws lib) where
  pub established-transport :
      (env : Environment) (sess : NoiseSession lib)
      → sess.state ≡ transport
      → is_established lib sess ≡ true
  established-transport env sess e =
      ap
        (λ st.
          let b : Bool = elim st [ transport ↦ true | handshake ↦ false | failed ↦ false ] in b)
        e

  -- What the receiver shows its clients.
  abbrev pub incoming_message : (from nick content : Text) (ts : ℕ) (msg_id : Text) → MessageEvent
  incoming_message from nick content ts msg_id = record {
    from = from;
    to = none;
    nick = nick;
    content = content;
    private = true;
    self = false;
    auto = none;
    ts = ts / 1000;
    msg_id = msg_id;
    queued = false;
  }

  module _ (env : Environment) (t : Manager lib) (pkt : Packet) (k : laws.Key)
      (sess : NoiseSession lib) (has_sess : get (hex pkt.sender_id) t.sessions ≡ some sess)
      (receives : Receives lib laws k sess) (kind : pkt.type ≡ MessageType.noise_encrypted) where
    pub handle_packet_opens :
        handle_packet env lib pkt t
        ≡ open_message env lib pkt (hex pkt.sender_id) (some sess) (record t {
          calls = t.calls + 1;
          peer_last_seen = set (hex pkt.sender_id) (env.clock t.calls) t.peer_last_seen;
        })
    unfolding handle_packet note_seen dispatch handle_noise_encrypted
    handle_packet_opens = rw (kind, has_sess, established-transport env sess receives.state) refl

    -- The packet holds the message of the other node.
    module _ (msg_id content : Text) (content_b : Bytes) (ascii : IsAscii msg_id)
        (uuid : length msg_id ≡ 36) (coded : utf8_encode content ≡ some content_b)
        (short : length content_b < 256)
        (sealed : Sealed lib laws k pkt.payload (framed msg_id content_b)) where
      pub open_message_delivers :
          (s : Manager lib)
          → let (r, s') = open_message env lib pkt (hex pkt.sender_id) (some sess) s in
            (r ≡ some tt)
            × Extends lib
                (s.trace
                  ++ publish (
                      message_event (
                        incoming_message
                          (hex pkt.sender_id)
                          (find_or (hex pkt.sender_id) [] s.peers)
                          content
                          (env.clock s.calls)
                          msg_id))
                    ∷ [])
                s'
      unfolding open_message read_plaintext deliver send_receipts
      open_message_delivers s =
          let peer_hex = hex pkt.sender_id in
          let sess' = (decrypt lib pkt.payload sess).0 in
          let opened =
            (decrypt-Sealed lib laws k sess pkt.payload (framed msg_id content_b) receives
              sealed).0 in
          let s1 : Manager lib = record s {
            sessions = set peer_hex sess' s.sessions;
            decrypt_fail_count = remove peer_hex s.decrypt_fail_count;
          } in
          let read =
            parse_incoming-framed msg_id content content_b ascii uuid coded short env lib s1 in
          let before =
            s.trace
            ++ publish (
                message_event (
                  incoming_message peer_hex (find_or peer_hex [] s.peers) content
                    (env.clock s.calls) msg_id))
              ∷ [] in
          let s2 : Manager lib = record s1 { calls = s.calls + 1; trace = before } in
          rw (opened, read)
            (
              refl,
              (send_receipts-Extends env lib before pkt peer_hex msg_id sess').at s2
                  ([], sym (append-nil before)),
            )
