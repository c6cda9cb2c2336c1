-- ===== src/Mesh/Session/Outgoing.antt =====
-- The packets that a node makes itself: `make_announce`, `make_leave` and `make_message_packet` of
-- server/bitchatd/mesh/session_manager.py, and the packet around a payload for one peer.
use bit_chat_pi.Dict.{find_or, remove, set}
use bit_chat_pi.Prelude.{Option, [], if◌then◌else◌, leb, none, some, true, ℕ, ◌-◌, ◌∷◌, list_eq}
use bit_chat_pi.Bytes.{Bytes}
use bit_chat_pi.Text.{Text}
use bit_chat_pi.Text.Utf8.{utf8_encode}
use bit_chat_pi.Exec.{gets, lift, modify, pure, ◌>>=◌, ◌>>◌}
use bit_chat_pi.Protocol.MessageType
use bit_chat_pi.Protocol.Packet.{Packet, new_packet}
use bit_chat_pi.Protocol.Codec.Encode.{encode}
use bit_chat_pi.Protocol.Announce.{encode_announce}
use bit_chat_pi.Crypto.Noise.{NoiseLibrary}
use bit_chat_pi.Mesh.Session.State.{Environment, Run, act, ask, send_packet}

-- `_ANNOUNCE_COOLDOWN`
abbrev pub announce_cooldown_ms : ℕ
announce_cooldown_ms = 10_000

module _ (env : Environment) where
  -- `sign(...) if sig_data else None`
  abbrev pub signature_of : Option Bytes → Option Bytes
  signature_of none = none
  signature_of (some []) = none
  signature_of (some (b ∷ bs)) = some (env.sign env.identity.sign_private (b ∷ bs))

  -- A packet at `ts`, signed over its encoding without hops. `ts'` is the clock, should `encode` read it.
  unfoldable pub signed_packet : ℕ → Bytes → ℕ → ℕ → Packet
  signed_packet type payload ts ts' =
      let p = new_packet type env.identity.peer_id payload in
      let unsigned : Packet = record p { ttl = 0; timestamp = ts } in
      record p { timestamp = ts; signature = signature_of (encode env.z ts' unsigned true) }

  -- A packet for one peer.
  abbrev pub private_packet : ℕ → Bytes → Bytes → ℕ → Packet
  private_packet type recipient_id payload ts =
      let p = new_packet type env.identity.peer_id payload in
      record p { recipient_id = some recipient_id; timestamp = ts }

  module _ (lib : NoiseLibrary) where
    -- The callback `send_packet`.
    unfoldable pub send : Packet → Run lib (Unit {0})
    send p = act lib (send_packet p)

    unfoldable pub make_announce : Run lib Packet
    make_announce = do
      nickname ← gets (λ s. s.nickname)
      payload ← lift (encode_announce nickname env.identity.noise_pub env.identity.sign_public)
      ts ← ask lib env.clock
      ts' ← ask lib env.clock
      pure (signed_packet MessageType.announce payload ts ts')

    unfoldable pub make_leave : Run lib Packet
    make_leave = do
      ts ← ask lib env.clock
      let p = new_packet MessageType.leave env.identity.peer_id []
      pure (record p { timestamp = ts })

    unfoldable pub make_message_packet : Text → Run lib Packet
    make_message_packet content = do
      ts ← ask lib env.clock
      payload ← lift (utf8_encode content)
      ts' ← ask lib env.clock
      pure (signed_packet MessageType.message payload ts ts')

    -- A packet for one peer that is stamped and sent.
    unfoldable pub send_private : ℕ → Bytes → Bytes → Run lib (Unit {0})
    unfolding send
    send_private type recipient_id payload = do
      ts ← ask lib env.clock
      send (private_packet type recipient_id payload ts)

    unfoldable pub note_announced : Text → ℕ → Run lib (Unit {0})
    note_announced peer_hex t =
        modify (λ s. record s { last_announced = set peer_hex t s.last_announced })

    -- The announcement, sent whenever the last one was; the time is read after it.
    unfoldable pub announce_now : Text → Run lib (Unit {0})
    unfolding make_announce send note_announced
    announce_now peer_hex = do
      modify (λ s. record s { last_announced = remove peer_hex s.last_announced })
      p ← make_announce
      send p
      t ← ask lib env.clock
      note_announced peer_hex t

    -- The announcement, unless one was sent less than ten seconds ago.
    unfoldable pub echo_announce : Text → Run lib (Unit {0})
    unfolding make_announce send note_announced
    echo_announce peer_hex = do
      now ← ask lib env.clock
      last ← gets (λ s. find_or peer_hex 0 s.last_announced)
      if leb announce_cooldown_ms (now - last)
          then (do p ← make_announce; send p; note_announced peer_hex now)
          else pure tt
