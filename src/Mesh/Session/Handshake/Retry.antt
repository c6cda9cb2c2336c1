-- ===== src/Mesh/Session/Handshake/Retry.antt =====
-- A phone that repeats the first message of its handshake gets the answer that it missed.
use bit_chat_pi.Prelude.{Option, [], false, length, none, some, ℕ, ◌++◌, ◌+◌, ◌∷◌, ◌≡◌, list_eq}
use bit_chat_pi.Bytes.{Bytes}
use bit_chat_pi.Text.{Text}
use bit_chat_pi.Dict.{get, set}
use bit_chat_pi.Protocol.MessageType
use bit_chat_pi.Protocol.Packet.{Packet}
use bit_chat_pi.Crypto.Noise.{NoiseLibrary, NoiseSession, create}
use bit_chat_pi.Mesh.Session.State.{Action, Environment, Manager, send_packet}
use bit_chat_pi.Mesh.Session.Outgoing.{private_packet}
use bit_chat_pi.Mesh.Session.Handshake.{handle_noise_handshake, read_message}

module _ (env : Environment) (lib : NoiseLibrary) where
  module _ (pkt : Packet) (peer_hex : Text) (s : Manager lib) (hs1 hs2 : lib.Handshake)
      (buf msg2 : Bytes) (first : length pkt.payload ≡ 32) (new : get peer_hex s.sessions ≡ none)
      (no_msg1 : get peer_hex s.last_msg1 ≡ none) (no_msg2 : get peer_hex s.pending_msg2 ≡ none)
      (reads : lib.read_message (lib.initialize false env.identity.noise_keypair) pkt.payload
        ≡ some (hs1, buf, none))
      (writes : lib.write_message hs1 [] ≡ some (hs2, msg2, none)) where
    -- The session that has read the first message and written the second one.
    abbrev pub answering : NoiseSession lib
    answering = record (create lib false (env.monotonic s.calls) env.identity.noise_keypair) {
      hs = hs2;
    }

    -- The session before it has read.
    abbrev begun : NoiseSession lib
    begun = create lib false (env.monotonic s.calls) env.identity.noise_keypair

    -- The node with that session.
    abbrev beginning : Manager lib
    beginning = record s {
      sessions = set peer_hex begun s.sessions;
      session_timestamps = set peer_hex (env.clock (s.calls + 1)) s.session_timestamps;
      calls = s.calls + 1 + 1;
    }

    -- What the node is after the first message.
    abbrev pub answered : Manager lib
    answered = record s {
      sessions = set peer_hex answering s.sessions;
      last_msg1 = set peer_hex pkt.payload s.last_msg1;
      pending_msg2 = set peer_hex msg2 s.pending_msg2;
      session_timestamps = set peer_hex (env.clock (s.calls + 1 + 1 + 1)) s.session_timestamps;
      calls = s.calls + 1 + 1 + 1 + 1 + 1 + 1;
      trace =
          s.trace
          ++ send_packet (
              private_packet env MessageType.noise_handshake pkt.sender_id msg2
                (env.clock (s.calls + 1 + 1 + 1 + 1 + 1)))
            ∷ [];
    }

    -- The second message, in a packet that was made at `t`.
    abbrev pub msg2_sent : ℕ → Action
    msg2_sent t = send_packet (private_packet env MessageType.noise_handshake pkt.sender_id msg2 t)

    -- What the two calls do.
    abbrev AnsweredTwice : Option (Unit {0}) × Manager lib → Type 0
    AnsweredTwice (r, s1) =
        let (r', s2) = handle_noise_handshake env lib pkt peer_hex s1 in
        (t : ℕ) × (t' : ℕ) × (r ≡ some tt)
        × (s1.trace ≡ s.trace ++ msg2_sent t ∷ [])
        × (get peer_hex s1.sessions ≡ some answering)
        × (r' ≡ some tt)
        × (s2 ≡ record s1 { calls = s1.calls + 1; trace = s1.trace ++ msg2_sent t' ∷ [] })
