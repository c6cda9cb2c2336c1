-- ===== src/Tests/Daemons.antt =====
-- Packets that the daemon dispatches.
use bit_chat_pi.Daemon.Link.{on_ble_write-send_packet_now}
use bit_chat_pi.Protocol.Codec.RoundTrip.{received}
use bit_chat_pi.Tests.Codecs.{routed, routed-IsSendable}
use bit_chat_pi.Tests.Zlibs.{runs, runs-ZlibLaws}
use bit_chat_pi.Daemon.Sending.{on_ble_write, send_packet_now}
use bit_chat_pi.Mesh.Session.Invariant.Reach.{ReachableManager-IsManager, begin}
use bit_chat_pi.Mesh.Session.Packets.{dispatch, handle_packet, handle_public_message, note_seen}
use bit_chat_pi.Dict.{get}
use bit_chat_pi.Bytes.{Bytes, pack, to_be}
use bit_chat_pi.Text.{text}
use bit_chat_pi.Tests.Sessions.{bob}
use bit_chat_pi.Tests.Fragments.{empty_manager, empty_manager-IsValid, outside}
use bit_chat_pi.Daemon.Repeats.{IsTable, admit, dispatch_dedup_key}
use bit_chat_pi.Protocol.Packet.{Packet, is_broadcast, new_packet}
use bit_chat_pi.Protocol.MessageType
use bit_chat_pi.Prelude.{
  All, List, [], arith, length, list_beq, min, refl, replicate, some, true, ℕ, ◌++◌, ◌+◌, ◌∷◌, ◌≡◌,
  ◌≤◌, list_eq,
}
use bit_chat_pi.Daemon.State.{
  DaemonEnvironment, Node, NodeAction, gatt_send, run_session, scanner_send,
}
use bit_chat_pi.Daemon.Dispatch.{
  dispatch_packet, dispatch_whole, is_dispatch_duplicate, is_for_me, route_packet,
}
use bit_chat_pi.Daemon.Invariant.{IsNode, dispatch_packet-IsNode}
use bit_chat_pi.Daemon.Once.{dispatch_all, dispatch_packet_twice}
use bit_chat_pi.Tests.Noise.{plain_library}
use bit_chat_pi.Mesh.Session.State.{new_manager}

abbrev system : DaemonEnvironment
system = record {
  session = bob;
  now_ms = λ i. 500_000 + i;
  outside = λ i. outside;
  is_connected = λ i. true;
  urandom = λ i. replicate 8 i;
}

abbrev started : Node plain_library
started = record {
  seen_dispatch = [];
  fragments = empty_manager;
  session = new_manager plain_library (text "bob");
  calls = 0;
  trace = [];
}

-- A public message of Alice.
abbrev shout : Packet
shout = record (new_packet MessageType.message (1 ∷ 2 ∷ []) (text "hi")) { timestamp = 77 }

shout_key : dispatch_dedup_key shout ≡ some (1 ∷ 2 ∷ 2 ∷ 0 ∷ 0 ∷ 0 ∷ 0 ∷ 0 ∷ 0 ∷ 0 ∷ 77 ∷ [])
unfolding dispatch_dedup_key pack to_be
shout_key = refl

-- It is shown once, and relayed.
shout_dispatched : length (dispatch_packet system plain_library 2 shout started).1.trace ≡ 2
unfolding dispatch_packet list_beq is_dispatch_duplicate dispatch_dedup_key pack admit get
    route_packet dispatch_whole is_for_me is_broadcast run_session handle_packet note_seen dispatch
    handle_public_message
shout_dispatched = refl

started-IsTable : IsTable started.seen_dispatch
started-IsTable = record { distinct = tt; bounded = omega arith }

-- Another packet of Alice comes between.
abbrev whisper : Packet
whisper = record (new_packet MessageType.message (1 ∷ 2 ∷ []) (text "ho")) { timestamp = 78 }

abbrev slow : DaemonEnvironment
slow = record system { now_ms = λ i. min (500_000 + i) 509_999 }

dispatch_packet_twice_example :
    let n' =
      dispatch_all slow plain_library 1
        (whisper ∷ [])
        (dispatch_packet slow plain_library 1 shout started).1 in
    dispatch_packet slow plain_library 1 shout n' ≡ (some tt, record n' { calls = n'.calls + 1 })
unfolding list_beq get
dispatch_packet_twice_example =
    dispatch_packet_twice slow plain_library 0 1 0 shout
      (1 ∷ 2 ∷ 2 ∷ 0 ∷ 0 ∷ 0 ∷ 0 ∷ 0 ∷ 0 ∷ 0 ∷ 77 ∷ []) (whisper ∷ []) started refl refl shout_key
      refl (λ i. omega arith) (omega arith)

started-IsNode : IsNode system plain_library started
started-IsNode = record {
  table = started-IsTable;
  fragments = empty_manager-IsValid;
  session = ReachableManager-IsManager bob plain_library (begin (text "bob"));
}

dispatch_packet-IsNode_example :
    IsNode system plain_library (dispatch_packet system plain_library 3 shout started).1
dispatch_packet-IsNode_example =
    dispatch_packet-IsNode system plain_library 3 shout started started-IsNode

-- The first reading of the clock is 0, and the codec compresses.
abbrev compressing : DaemonEnvironment
compressing = record system { session = record bob { z = runs }; now_ms = λ i. i }

on_ble_write-send_packet_now_example :
    let (r, n') = send_packet_now compressing plain_library routed started in
    (raw : Bytes) × (more : List NodeAction) × (r ≡ some tt)
    × (n'.trace ≡ [] ++ gatt_send raw ∷ more)
    × All (λ a. a ≡ scanner_send raw) more
    × (length more ≤ 1)
    × ((depth : ℕ) (m : Node plain_library)
        → on_ble_write compressing plain_library depth raw m
          ≡ dispatch_packet compressing plain_library depth (received runs 0 routed) m)
on_ble_write-send_packet_now_example =
    on_ble_write-send_packet_now compressing plain_library compressing routed started runs-ZlibLaws
      refl routed-IsSendable
