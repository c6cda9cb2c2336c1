-- ===== src/Daemon/Sending.antt =====
-- `_send_packet`, `_fragment_and_send`, `_relay_broadcast` and `_on_ble_write` of server/daemon.py.
use bit_chat_pi.Protocol.Codec.Decode.{decode}
use bit_chat_pi.Mesh.Fragments.Split.{create_fragments}
use bit_chat_pi.Protocol.Codec.Encode.{encode}
use bit_chat_pi.Bytes.{Bytes}
use bit_chat_pi.Protocol.Packet.{Packet}
use bit_chat_pi.Crypto.Noise.{NoiseLibrary}
use bit_chat_pi.Prelude.{Option, [], none, not, some, true, ℕ, ◌||◌, ◌∷◌}
use bit_chat_pi.Exec.{for_each, gets, lift, pure, ◌>>=◌, ◌>>◌}
use bit_chat_pi.Daemon.State.{
  DaemonEnvironment, NodeRun, ask_system, gatt_send, perform, scanner_send,
}
use bit_chat_pi.Daemon.Dispatch.{dispatch_packet, is_receiving, unless}

module _ (env : DaemonEnvironment) (lib : NoiseLibrary) where
  -- What is encoded goes out as a notification, and through the scanner while no fragments come in.
  unfoldable pub send_raw : Option Bytes → NodeRun lib (Unit {0})
  send_raw none = pure tt
  send_raw (some raw) = do
    perform lib (gatt_send raw)
    receiving ← gets (λ n. is_receiving n.fragments.sets)
    connected ← ask_system lib env.is_connected
    unless lib (not connected || receiving) (perform lib (scanner_send raw))

  unfoldable pub send_packet_now : Packet → NodeRun lib (Unit {0})
  send_packet_now pkt = do
    now ← ask_system lib env.now_ms
    send_raw (encode env.session.z now pkt true)

  unfoldable pub fragment_and_send_now : Packet → NodeRun lib (Unit {0})
  fragment_and_send_now pkt = do
    now ← ask_system lib env.now_ms
    frag_id ← ask_system lib env.urandom
    packets ← lift (create_fragments env.session.z now frag_id pkt)
    for_each packets send_packet_now

  -- Of a relayed packet, also while fragments come in.
  unfoldable pub relay_raw : Option Bytes → NodeRun lib (Unit {0})
  relay_raw none = pure tt
  relay_raw (some []) = pure tt
  relay_raw (some (b ∷ bs)) = do
    perform lib (gatt_send (b ∷ bs))
    connected ← ask_system lib env.is_connected
    unless lib (not connected) (perform lib (scanner_send (b ∷ bs)))

  unfoldable pub relay_broadcast : Packet → NodeRun lib (Unit {0})
  relay_broadcast pkt = do
    now ← ask_system lib env.now_ms
    relay_raw (encode env.session.z now pkt true)

  unfoldable pub dispatch_decoded : ℕ → Option Packet → NodeRun lib (Unit {0})
  dispatch_decoded depth none = pure tt
  dispatch_decoded depth (some pkt) = dispatch_packet env lib depth pkt

  -- The dispatch, which the event loop starts a little later.
  unfoldable pub on_ble_write : ℕ → Bytes → NodeRun lib (Unit {0})
  on_ble_write depth bytes = dispatch_decoded depth (decode env.session.z bytes)
