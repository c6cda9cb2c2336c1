-- ===== src/Daemon/Link.antt =====
-- What one node sends, another one dispatches.
use bit_chat_pi.Protocol.Codec.RoundTrip.{IsSendable, decode-encode, received}
use bit_chat_pi.Daemon.Dispatch.{dispatch_packet, is_receiving}
use bit_chat_pi.Zlib.{ZlibLaws}
use bit_chat_pi.Bytes.{Bytes}
use bit_chat_pi.Protocol.Packet.{Packet}
use bit_chat_pi.Crypto.Noise.{NoiseLibrary}
use bit_chat_pi.Prelude.{
  All, Bool-cases, List, [], append_assoc, arith, inl, inr, length, not, refl, some, true, ℕ, ◌++◌,
  ◌+◌, ◌||◌, ◌∷◌, ◌≡◌, ◌≤◌,
}
use bit_chat_pi.Daemon.State.{DaemonEnvironment, Node, NodeAction, gatt_send, scanner_send}
use bit_chat_pi.Daemon.Sending.{dispatch_decoded, on_ble_write, send_packet_now, send_raw}

module _ (env : DaemonEnvironment) (lib : NoiseLibrary) where
  -- After the notification, at most the same bytes go out through the scanner.
  sent_beside :
      (raw : Bytes) (n : Node lib)
      → let (r, n') = send_raw env lib (some raw) n in
        (more : List NodeAction) × (r ≡ some tt)
        × (n'.trace ≡ n.trace ++ gatt_send raw ∷ more)
        × All (λ a. a ≡ scanner_send raw) more
        × (length more ≤ 1)
  unfolding send_raw
  sent_beside raw n =
      elim (Bool-cases (not (env.is_connected n.calls) || is_receiving n.fragments.sets)) [
        | inl t ↦ ([], rw t refl, rw t refl, tt, omega arith)
        | inr f ↦ (
          scanner_send raw ∷ [],
          rw f refl,
          rw f (append_assoc n.trace (gatt_send raw ∷ []) (scanner_send raw ∷ [])),
          (refl, tt),
          omega arith,
        )
      ]

  -- A packet whose fields fit the format is sent: the call ends after one notification and at most once the
  -- same bytes through the scanner; and a node that gets those bytes dispatches the packet with the version,
  -- the stamp and the flags that were written, where both have a zlib that reads back its own output and
  -- compresses at most 1032 to 1.
  pub on_ble_write-send_packet_now :
      (env' : DaemonEnvironment) (pkt : Packet) (n : Node lib)
      → ZlibLaws env.session.z
      → env'.session.z ≡ env.session.z
      → IsSendable (env.now_ms n.calls) pkt
      → let (r, n') = send_packet_now env lib pkt n in
        (raw : Bytes) × (more : List NodeAction) × (r ≡ some tt)
        × (n'.trace ≡ n.trace ++ gatt_send raw ∷ more)
        × All (λ a. a ≡ scanner_send raw) more
        × (length more ≤ 1)
        × ((depth : ℕ) (m : Node lib)
            → on_ble_write env' lib depth raw m
              ≡ dispatch_packet env' lib depth (received env.session.z (env.now_ms n.calls) pkt) m)
  unfolding send_packet_now on_ble_write dispatch_decoded
  on_ble_write-send_packet_now env' pkt n laws same ok =
      let now = env.now_ms n.calls in
      let (raw, e, back) = decode-encode env.session.z now pkt true laws ok in
      let (more, r, t, sent, once) = sent_beside raw (record n { calls = n.calls + 1 }) in
      (raw, more, rw e r, rw e t, sent, once, λ depth m. rw (same, back) refl)
