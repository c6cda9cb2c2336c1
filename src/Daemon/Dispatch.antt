-- ===== src/Daemon/Dispatch.antt =====
-- `_is_dispatch_duplicate` and `_dispatch` of server/daemon.py.
use bit_chat_pi.Mesh.Fragments.Manager.{FragmentSet, completed, expired, rescue_saved, set_started}
use bit_chat_pi.Mesh.Session.Pending.{cancel_pending_sends}
use bit_chat_pi.Mesh.Session.State.{has_session}
use bit_chat_pi.Text.Hex.{hex}
use bit_chat_pi.Mesh.Session.Packets.{handle_packet}
use bit_chat_pi.Protocol.Packet.{Packet, is_broadcast}
use bit_chat_pi.Text.{Text}
use bit_chat_pi.Daemon.Repeats.{admit, dispatch_dedup_key}
use bit_chat_pi.Mesh.Fragments.Payload.{FragmentPayload, decode_fragment_payload}
use bit_chat_pi.Dict.{Dict, has}
use bit_chat_pi.Crypto.Noise.{NoiseLibrary}
use bit_chat_pi.Bytes.{Bytes}
use bit_chat_pi.Prelude.{
  Bool, Option, [], false, if◌then◌else◌, length, ltb, none, not, some, suc, true, zero, ℕ, ◌&&◌,
  ◌==◌, ◌=?◌, ◌||◌, ◌∷◌, list_eq,
}
use bit_chat_pi.Protocol.MessageType
use bit_chat_pi.Daemon.State.{
  DaemonEnvironment, FragmentEvent, Node, NodeRun, ask_system, disconnect_all_central,
  fragment_event, pause_advertising, perform, resume_advertising, run_session, schedule_relay,
}
use bit_chat_pi.Exec.{for_each, gets, lift, pure, raise, ◌>>=◌, ◌>>◌}
use bit_chat_pi.Mesh.Fragments.Receive.{
  Answer, Outside, Result, handle_fragment, nothing, raised, reassembled,
}

-- Whether the recipient of a packet is the given peer.
abbrev pub is_recipient : Bytes → Option Bytes → Bool
is_recipient id none = false
is_recipient id (some r) = r =? id

-- `_fragments.is_receiving()`
abbrev pub is_receiving : Dict Text FragmentSet → Bool
is_receiving [] = false
is_receiving (x ∷ sets) = true

-- The guard of an early return.
abbrev pub unless : (lib : NoiseLibrary) → Bool → NodeRun lib (Unit {0}) → NodeRun lib (Unit {0})
unless lib test m = if test then pure tt else m

module _ (env : DaemonEnvironment) (lib : NoiseLibrary) where
  abbrev pub own_peer_id : Bytes
  own_peer_id = env.session.identity.peer_id

  -- The table, with the answer.
  abbrev pub look_up : Bytes → ℕ → NodeRun lib Bool
  look_up key now n =
      let r = admit key now n.seen_dispatch in (some r.0, record n { seen_dispatch = r.1 })

  unfoldable pub is_dispatch_duplicate : Packet → NodeRun lib Bool
  is_dispatch_duplicate pkt = if pkt.type == MessageType.fragment then pure false else (do
    key ← lift (dispatch_dedup_key pkt)
    now ← ask_system lib env.now_ms
    look_up key now)

  abbrev release : NodeRun lib (Unit {0})
  release = do perform lib disconnect_all_central; perform lib pause_advertising

  -- On the first fragment of a large set the central connections are released.
  unfoldable pub release_central : Option FragmentPayload → NodeRun lib (Unit {0})
  release_central none = pure tt
  release_central (some f) = do
    is_old ← gets (λ n. has (hex f.frag_id) n.fragments.sets)
    unless lib (ltb f.total 20 || is_old) release

  -- The callbacks of the fragment manager. A completed transfer cancels the queued replies.
  unfoldable pub call_back : FragmentEvent → NodeRun lib (Unit {0})
  call_back (completed s) = do
    perform lib (fragment_event (completed s))
    _ ← run_session lib (cancel_pending_sends lib s.sender_hex)
    pure tt
  call_back (set_started s taken) = perform lib (fragment_event (set_started s taken))
  call_back (expired s missing received absent) =
      perform lib (fragment_event (expired s missing received absent))
  call_back rescue_saved = perform lib (fragment_event rescue_saved)

  abbrev pub collect : Outside → Packet → NodeRun lib Result
  collect o pkt n =
      let r = handle_fragment o pkt n.fragments in (some r, record n { fragments = r.manager })

  -- The answer of `handle_fragment`, where an exception goes on.
  abbrev pub answer_of : Answer → Option (Option Packet)
  answer_of nothing = some none
  answer_of raised = none
  answer_of (reassembled p) = some (some p)

  unfoldable pub handle_fragment_of : Packet → NodeRun lib (Option Packet)
  handle_fragment_of pkt = do
    o ← ask_system lib env.outside
    r ← collect o pkt
    for_each r.events call_back
    lift (answer_of r.answer)

  unfoldable pub resume : NodeRun lib (Unit {0})
  resume = do
    receiving ← gets (λ n. is_receiving n.fragments.sets)
    unless lib receiving (perform lib resume_advertising)

  -- `again` is `_dispatch`.
  unfoldable pub after_fragment :
      (Packet → NodeRun lib (Unit {0})) → Option Packet → NodeRun lib (Unit {0})
  after_fragment again none = pure tt
  after_fragment again (some p) = do again p; resume

  unfoldable pub dispatch_fragment :
      (Packet → NodeRun lib (Unit {0})) → Packet → NodeRun lib (Unit {0})
  dispatch_fragment again pkt = do
    release_central (decode_fragment_payload pkt.payload)
    p ← handle_fragment_of pkt
    after_fragment again p
    unless lib (is_recipient own_peer_id pkt.recipient_id)
        (perform lib (schedule_relay pkt (hex pkt.sender_id)))

  -- `is_for_me` at the end of its tests.
  unfoldable pub is_for_me : Packet → Node lib → Bool
  is_for_me pkt n =
      if is_broadcast pkt || is_recipient own_peer_id pkt.recipient_id
      then true
      else if pkt.type == MessageType.noise_handshake && length pkt.payload == 32
      then true
      else if pkt.type == MessageType.noise_handshake || pkt.type == MessageType.noise_encrypted
      then has_session lib (hex pkt.sender_id) n.session
      else false

  unfoldable pub dispatch_whole : Packet → NodeRun lib (Unit {0})
  dispatch_whole pkt = do
    mine ← gets (is_for_me pkt)
    unless lib (not mine) (run_session lib (handle_packet env.session lib pkt))
    unless lib (is_recipient own_peer_id pkt.recipient_id && not (is_broadcast pkt))
        (perform lib (schedule_relay pkt (hex pkt.sender_id)))

  unfoldable pub route_packet : (Packet → NodeRun lib (Unit {0})) → Packet → NodeRun lib (Unit {0})
  route_packet again pkt =
      if pkt.type == MessageType.fragment then dispatch_fragment again pkt else dispatch_whole pkt

  -- `_dispatch` calls itself for a packet that is put together, which may be a fragment again. The fuel
  -- is the number of frames that Python's stack has left; without one there is RecursionError.
  unfoldable pub dispatch_packet : ℕ → Packet → NodeRun lib (Unit {0})
  dispatch_packet zero pkt = raise
  dispatch_packet (suc depth) pkt = if pkt.sender_id =? own_peer_id then pure tt else (do
    repeated ← is_dispatch_duplicate pkt
    unless lib repeated (route_packet (dispatch_packet depth) pkt))
