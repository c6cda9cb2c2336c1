-- ===== src/Daemon/Once.antt =====
-- A packet that comes in over two connections is handled once.
use bit_chat_pi.Mesh.Relay.Once.{Kept-weaken}
use bit_chat_pi.Mesh.Relay.Order.{Kept}
use bit_chat_pi.Daemon.Table.{HasTable, dispatch_packet-Leads, dispatch_whole-HasTable}
use bit_chat_pi.Dict.{get}
use bit_chat_pi.Bytes.{Bytes}
use bit_chat_pi.Protocol.Packet.{Packet}
use bit_chat_pi.Crypto.Noise.{NoiseLibrary}
use bit_chat_pi.Prelude.{
  List, [], arith, false, length, none, refl, some, subst, suc, ℕ, ◌+◌, ◌-◌, ◌<◌, ◌==◌, ◌=?◌, ◌∷◌,
  ◌≡◌, list_eq,
}
use bit_chat_pi.Protocol.MessageType
use bit_chat_pi.Daemon.State.{DaemonEnvironment, Node}
use bit_chat_pi.Daemon.Repeats.{
  admit, admit-Kept, admit-Kept_new, admit_new, admit_recent, dispatch_dedup_key,
  dispatch_dedup_max, dispatch_dedup_ms,
}
use bit_chat_pi.Daemon.Dispatch.{dispatch_packet, is_dispatch_duplicate, own_peer_id, route_packet}

module _ (env : DaemonEnvironment) (lib : NoiseLibrary) where
  -- A packet whose key has a recent entry is dropped.
  pub dispatch_packet_recent :
      (depth : ℕ) (pkt : Packet) (key : Bytes) (t : ℕ) (n : Node lib)
      → (pkt.sender_id =? own_peer_id env lib) ≡ false
      → (pkt.type == MessageType.fragment) ≡ false
      → dispatch_dedup_key pkt ≡ some key
      → get key n.seen_dispatch ≡ some t
      → env.now_ms n.calls - t < dispatch_dedup_ms
      → dispatch_packet env lib (suc depth) pkt n ≡ (some tt, record n { calls = n.calls + 1 })
  unfolding dispatch_packet is_dispatch_duplicate
  dispatch_packet_recent depth pkt key t n other whole k e h =
      rw (other, whole, k, admit_recent key t (env.now_ms n.calls) n.seen_dispatch e h) refl

  -- Packets that are dispatched one after the other; the event loop goes on after an exception.
  unfoldable pub dispatch_all : ℕ → List Packet → Node lib → Node lib
  dispatch_all depth [] n = n
  dispatch_all depth (pkt ∷ pkts) n =
      dispatch_all depth pkts (dispatch_packet env lib depth pkt n).1

  -- While the clock stays within ten seconds of an entry, each packet puts at most one entry behind it.
  dispatch_all-Kept :
      (depth : ℕ) (pkts : List Packet) (key : Bytes) (t k : ℕ) (n : Node lib)
      → ((i : ℕ) → env.now_ms i - t < dispatch_dedup_ms)
      → k + length pkts < dispatch_dedup_max
      → HasTable env lib (Kept key t k) n
      → HasTable env lib (Kept key t (k + length pkts)) (dispatch_all depth pkts n)
  unfolding dispatch_all
  dispatch_all-Kept depth [] key t k n early room h =
      subst (λ m. HasTable env lib (Kept key t m) n) (omega arith) h
  dispatch_all-Kept depth (pkt ∷ pkts) key t k n early room h =
      let step =
        dispatch_packet-Leads env lib (Kept-weaken key t k)
          (λ j calls seen.
            admit-Kept j key (env.now_ms calls) t k seen (early calls) (omega (arith, room)))
          depth pkt in
      subst
        (λ m.
          HasTable env lib (Kept key t m)
            (dispatch_all depth pkts (dispatch_packet env lib depth pkt n).1))
        (omega arith)
        (dispatch_all-Kept depth pkts key t (k + 1) (dispatch_packet env lib depth pkt n).1 early
          (omega (arith, room)) (step.at n h))

  -- A packet that is new is in the table when its handling is done, as the latest, also where that raised.
  dispatch_packet-Kept :
      (depth : ℕ) (pkt : Packet) (key : Bytes) (n : Node lib)
      → (pkt.sender_id =? own_peer_id env lib) ≡ false
      → (pkt.type == MessageType.fragment) ≡ false
      → dispatch_dedup_key pkt ≡ some key
      → get key n.seen_dispatch ≡ none
      → HasTable env lib
          (Kept key (env.now_ms n.calls) 0)
          (dispatch_packet env lib (suc depth) pkt n).1
  unfolding dispatch_packet is_dispatch_duplicate route_packet
  dispatch_packet-Kept depth pkt key n other whole k new =
      let now = env.now_ms n.calls in
      let after = (admit key now n.seen_dispatch).1 in
      let fresh = admit_new key now n.seen_dispatch new in
      let n1 : Node lib = record n { calls = n.calls + 1; seen_dispatch = after } in
      rw (other, whole, k, fresh)
        ((dispatch_whole-HasTable env lib (Kept key now 0) pkt).at n1
          (record { holds = admit-Kept_new key now n.seen_dispatch new }))

  -- A packet that is no fragment and not our own, and whose key is not in the table, is handled once: when it
  -- comes again after fewer than 1,000 other calls of `_dispatch`, whatever they raise, and while the clock stays
  -- within ten seconds of the first time, nothing is done and nothing changes; only the clock is read.
  pub dispatch_packet_twice :
      (depth depth' depth'' : ℕ) (pkt : Packet) (key : Bytes) (others : List Packet) (n : Node lib)
      → (pkt.sender_id =? own_peer_id env lib) ≡ false
      → (pkt.type == MessageType.fragment) ≡ false
      → dispatch_dedup_key pkt ≡ some key
      → get key n.seen_dispatch ≡ none
      → ((i : ℕ) → env.now_ms i - env.now_ms n.calls < dispatch_dedup_ms)
      → length others < dispatch_dedup_max
      → let n' = dispatch_all depth' others (dispatch_packet env lib (suc depth) pkt n).1 in
        dispatch_packet env lib (suc depth'') pkt n' ≡ (some tt, record n' { calls = n'.calls + 1 })
  dispatch_packet_twice depth depth' depth'' pkt key others n other whole k new early few =
      let n1 = (dispatch_packet env lib (suc depth) pkt n).1 in
      let n' = dispatch_all depth' others n1 in
      let kept =
        dispatch_all-Kept depth' others key (env.now_ms n.calls) 0 n1 early (omega (arith, few))
          (dispatch_packet-Kept depth pkt key n other whole k new) in
      dispatch_packet_recent depth'' pkt key (env.now_ms n.calls) n' other whole k kept.holds.entry
        (early n'.calls)
