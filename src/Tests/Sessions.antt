-- ===== src/Tests/Sessions.antt =====
-- Two nodes with a session, and what they do.
use bit_chat_pi.Mesh.Session.Received.{incoming_message}
use bit_chat_pi.Mesh.Session.Delivery.{handle_packet-handle_command}
use bit_chat_pi.Mesh.Session.Encrypted.Receipts.{Extends}
use bit_chat_pi.Mesh.Session.Pending.Queue.{Delivered, encodable_front, outcome}
use bit_chat_pi.Mesh.Session.Commands.{handle_command, send_text, sent}
use bit_chat_pi.Mesh.Session.Invariant.Reach.{ReachableManager-IsManager, begin, packet, then_step}
use bit_chat_pi.Protocol.MessageType
use bit_chat_pi.Mesh.Session.Pending.{drain_pending_sends, fresh_sends}
use bit_chat_pi.Mesh.Session.Announces.Stale.{Sweeps, is_stale_at, report_lost, sweep-Sweeps}
use bit_chat_pi.Text.Unhex.{unhex}
use bit_chat_pi.Mesh.Session.Announces.Forgets.{AllDicts, Forgets, handle_leave-Forgets}
use bit_chat_pi.Mesh.Session.Packets.{handle_packet}
use bit_chat_pi.Mesh.Session.Announces.{handle_leave, stale_at, sweep}
use bit_chat_pi.Dict.{find_or, get}
use bit_chat_pi.Crypto.Noise.{NoiseLibrary, read_handshake_message, write_handshake_message}
use bit_chat_pi.Mesh.Session.Invariant.{IsManager}
use bit_chat_pi.Mesh.Session.Announces.Cooldown.{after_all, packets_sent, packets_sent-after_all}
use bit_chat_pi.Protocol.Packet.{Packet, new_packet}
use bit_chat_pi.Prelude.{
  List, [], arith, false, inr, list_beq, map, none, refl, replicate, some, take, true, ◌++◌, ◌+◌,
  ◌∷◌, ◌≡◌, ◌≤◌, list_eq,
}
use bit_chat_pi.Bytes.{Bytes, pack, to_be}
use bit_chat_pi.Text.{Text, text}
use bit_chat_pi.Text.Utf8.{encode_char, utf8_encode}
use bit_chat_pi.Protocol.Announce.{decode_announce, encode_announce, encode_tlv}
use bit_chat_pi.Protocol.Announce.RoundTrip.{decode_announce-encode_announce}
use bit_chat_pi.Tests.Zlibs.{storing}
use bit_chat_pi.Tests.Noise.{initiated, plain_library, plain_library-NoiseLaws, responding}
use bit_chat_pi.Mesh.Session.State.{
  Action, Environment, Manager, MessageEvent, message_event, new_manager, peer_lost, publish,
  send_packet,
}
use bit_chat_pi.Mesh.Session.Files.{text_message}
use bit_chat_pi.Mesh.Session.Incoming.{parse_incoming}
use bit_chat_pi.Mesh.Session.Incoming.RoundTrip.{parse_incoming-encode_message_payload}
use bit_chat_pi.Mesh.Session.Payload.{encode_message_payload}
use bit_chat_pi.Text.Hex.{hex}
use bit_chat_pi.Mesh.Session.Pending.Drain.{drain_pending_sends-Delivered}

abbrev some_uuid : Text
some_uuid = text "01234567-89ab-cdef-0123-456789abcdef"

abbrev pub node : Bytes → Environment
node peer_id = record {
  identity = record {
    noise_keypair = [];
    noise_pub = replicate 32 1;
    sign_private = [];
    sign_public = replicate 32 2;
    peer_id = peer_id;
  };
  files_dir = text "/files";
  peer_timeout = 300_000;
  z = storing;
  sign = λ key xs. replicate 64 3;
  clock = λ i. 500_000;
  monotonic = λ i. 7;
  uuid4 = λ i. some_uuid;
  is_reachable = λ i. true;
  write_file = λ i. true;
  read_file = λ i path. none;
}

abbrev alice : Environment
alice = node (1 ∷ 2 ∷ [])

abbrev pub bob : Environment
bob = node (3 ∷ 4 ∷ [])

abbrev alice_hex : Text
alice_hex = text "0102"

abbrev bob_hex : Text
bob_hex = text "0304"

-- `é` and `!`.
abbrev greeting : Text
greeting = 0xe9 ∷ 0x21 ∷ []

-- What `decode_announce` reads of the announcement of `é!`.
decode_announce-encode_announce_example :
    decode_announce (1 ∷ 3 ∷ 0xc3 ∷ 0xa9 ∷ 0x21 ∷ 2 ∷ 1 ∷ 7 ∷ 3 ∷ 1 ∷ 8 ∷ [])
    ≡ some (record { nickname = greeting; noise_pub = 7 ∷ []; sign_pub = 8 ∷ [] })
unfolding utf8_encode encode_char encode_announce encode_tlv
decode_announce-encode_announce_example =
    decode_announce-encode_announce greeting (7 ∷ []) (8 ∷ []) (0xc3 ∷ 0xa9 ∷ 0x21 ∷ [])
      (1 ∷ 3 ∷ 0xc3 ∷ 0xa9 ∷ 0x21 ∷ 2 ∷ 1 ∷ 7 ∷ 3 ∷ 1 ∷ 8 ∷ []) refl (omega arith) refl

abbrev fresh : Manager plain_library
fresh = new_manager plain_library (text "bob")

parse_incoming-encode_message_payload_example :
    (payload : Bytes) × (encode_message_payload greeting some_uuid ≡ some payload)
    × (parse_incoming bob plain_library payload fresh
        ≡ (some (some (text_message some_uuid greeting)), fresh))
unfolding utf8_encode encode_char
parse_incoming-encode_message_payload_example =
    parse_incoming-encode_message_payload some_uuid greeting (0xc3 ∷ 0xa9 ∷ 0x21 ∷ []) (omega arith)
      refl refl (omega arith) bob plain_library fresh

-- Alice began the handshake, Bob answered it: both have the session, and each knows the other's name.
abbrev alice_state : Manager plain_library
alice_state = record (new_manager plain_library (text "alice")) {
  sessions = (bob_hex, initiated) ∷ [];
  peers = (bob_hex, text "bob") ∷ [];
  peer_last_seen = (bob_hex, 100) ∷ [];
  pending_sends =
      (bob_hex, record { content = greeting; msg_id = some_uuid; queued_at = 400_000 } ∷ []) ∷ [];
}

abbrev bob_state : Manager plain_library
bob_state = record (new_manager plain_library (text "bob")) {
  sessions = (alice_hex, responding) ∷ [];
  peers = (alice_hex, text "alice") ∷ [];
}

handle_packet-handle_command_example :
    let (r, s') =
      handle_command alice plain_library (send_text bob_hex greeting false) alice_state in
    (pkt : Packet) × (shown : MessageEvent) × (r ≡ some (text "send", sent some_uuid))
    × (s'.trace ≡ [] ++ send_packet pkt ∷ [] ++ publish (message_event shown) ∷ [])
    × (pkt.recipient_id ≡ some (3 ∷ 4 ∷ []))
    × (shown.content ≡ greeting)
    × (shown.msg_id ≡ some_uuid)
    × ((handle_packet bob plain_library pkt bob_state).0 ≡ some tt)
    × Extends plain_library
        (publish (
            message_event (
              incoming_message plain_library plain_library-NoiseLaws
                (hex (1 ∷ 2 ∷ []))
                (find_or (hex (1 ∷ 2 ∷ [])) [] bob_state.peers)
                greeting
                500_000
                some_uuid))
          ∷ [])
        (handle_packet bob plain_library pkt bob_state).1
unfolding write_handshake_message read_handshake_message plain_library-NoiseLaws utf8_encode
    encode_char unhex hex get list_beq
handle_packet-handle_command_example =
    handle_packet-handle_command plain_library plain_library-NoiseLaws alice alice_state bob_hex
      greeting false (3 ∷ 4 ∷ []) (0xc3 ∷ 0xa9 ∷ 0x21 ∷ []) 1 initiated refl refl refl refl
      (record { state = refl; cipher = (1, 0); has = refl; under = refl }) refl (omega arith) refl
      refl (omega arith)
      (record { early = λ i. omega arith; nonces = omega arith; few = omega arith }) bob bob_state
      responding refl (record { state = refl; cipher = (1, 0); has = refl; under = refl })

first_key : plain_library-NoiseLaws.Key
unfolding plain_library-NoiseLaws
first_key = 1

drain_pending_sends-Delivered_example :
    let queue = fresh_sends 500_000 (find_or bob_hex [] alice_state.pending_sends) in
    let (r, s') = drain_pending_sends alice plain_library bob_hex initiated alice_state in
    (actions : List Action) × (r ≡ outcome alice plain_library plain_library-NoiseLaws queue)
    × (s'.trace ≡ [] ++ actions)
    × (get bob_hex s'.pending_sends ≡ none)
    × Delivered alice plain_library plain_library-NoiseLaws first_key bob_hex
        (3 ∷ 4 ∷ [])
        (encodable_front alice plain_library plain_library-NoiseLaws queue)
        actions
unfolding write_handshake_message plain_library-NoiseLaws first_key unhex get fresh_sends
    utf8_encode encode_char encode_message_payload pack to_be list_beq
drain_pending_sends-Delivered_example =
    drain_pending_sends-Delivered alice plain_library plain_library-NoiseLaws first_key bob_hex
      (3 ∷ 4 ∷ []) initiated alice_state refl (refl, tt)
      (record { state = refl; cipher = (1, 0); has = refl; under = refl })
      (record { early = λ i. omega arith; nonces = omega arith; few = omega arith })

ReachableManager-IsManager_example :
    IsManager plain_library
      (handle_packet alice plain_library
        (new_packet MessageType.leave (3 ∷ 4 ∷ []) [])
        (new_manager plain_library [])).1
ReachableManager-IsManager_example =
    ReachableManager-IsManager alice plain_library
      (then_step (begin []) (packet (new_packet MessageType.leave (3 ∷ 4 ∷ []) [])))

alice_state-AllDicts : AllDicts plain_library alice_state
unfolding get
alice_state-AllDicts = record {
  sessions = (refl, tt);
  peers = (refl, tt);
  peer_noise_pub = tt;
  peer_last_seen = (refl, tt);
  last_announced = tt;
  last_msg1 = tt;
  pending_msg2 = tt;
  pending_sends = (refl, tt);
  session_timestamps = tt;
  decrypt_fail_count = tt;
}

handle_leave-Forgets_example :
    let (r, s') = handle_leave plain_library bob_hex alice_state in
    (r ≡ some tt)
    × Forgets plain_library bob_hex alice_state s'
    × (s'.trace
        ≡ []
          ++ publish (peer_lost bob_hex (find_or bob_hex (take 8 bob_hex) alice_state.peers)) ∷ [])
handle_leave-Forgets_example =
    handle_leave-Forgets plain_library bob_hex alice_state alice_state-AllDicts

sweep-Sweeps_example :
    let (r, s') = sweep alice plain_library alice_state in
    (r ≡ some tt)
    × Sweeps alice plain_library
        (is_stale_at 300_000 500_000 alice_state.peers alice_state.peer_last_seen)
        alice_state
        s'
    × (s'.trace
        ≡ []
          ++ map
              (report_lost alice_state.peers)
              (stale_at 300_000 500_000 alice_state.peers alice_state.peer_last_seen))
sweep-Sweeps_example = sweep-Sweeps alice plain_library alice_state alice_state-AllDicts

-- A library whose handshake does not end with the second message.
abbrev three_messages : NoiseLibrary
three_messages = record plain_library {
  write_message = λ hs payload. some (hs, 5 ∷ 6 ∷ [], none);
  read_message = λ hs xs. some (hs, [], none);
}

-- Alice begins a handshake, and repeats its first message.
abbrev msg1 : Packet
msg1 = new_packet MessageType.noise_handshake (1 ∷ 2 ∷ []) (replicate 32 9)

abbrev idle : Manager three_messages
idle = new_manager three_messages (text "bob")

abbrev hello_again : Packet
hello_again = new_packet MessageType.request_sync (1 ∷ 2 ∷ []) []

packets_sent-after_all_example :
    packets_sent (after_all bob plain_library (hello_again ∷ hello_again ∷ []) bob_state).trace
    ≤ 0 + 1
unfolding hex
packets_sent-after_all_example =
    packets_sent-after_all bob plain_library 495_000 alice_hex (hello_again ∷ hello_again ∷ [])
      bob_state (λ i. omega arith)
      (record { from = refl; kind = inr refl }, (record { from = refl; kind = inr refl }, tt))
