-- ===== src/Lib.antt =====
-- BitChatPi: a node of the BitChat mesh on a Raspberry Pi. The daemon (server/bitchatd) talks to phones
-- over Bluetooth: packets come in as bytes, are decoded, put together from fragments, handed to the
-- session of their sender, and passed on to other peers.
--
-- How the parts interact: the codec turns packets into bytes and back. The fragment manager cuts the
-- bytes of a long packet in fragments, which are packets themselves, and puts them together again. The
-- relay engine decides whether a packet for somebody else is passed on. The peer registry keeps who was
-- heard of. A Noise session encrypts the payloads for one peer. The session manager ties them together.
--
-- Which file models which part:
-- - Prelude: names and lemmas that all files share. Prelude/Equality.antt has equality as an interface.
-- - Bytes.antt: `bytes`, slices and `struct`'s big-endian unsigned integers; Bytes/Signed.antt
--   has its signed ones, and Bytes/Cursor.antt follows an offset.
-- - Dict.antt: Python's `dict` as a list of entries in insertion order; its children hold the laws.
-- - Text.antt: texts as lists of code points, with `strip`; Text/Hex.antt is `bytes.hex`, Text/Unhex.antt
--   `bytes.fromhex`, and Text/Utf8.antt the codec `utf-8`, strict and with replacements.
-- - Exec.antt: a step of a stateful object, with its actions in order and exceptions. A step that raises
--   keeps what was done before. Exec/Keeps.antt has the rules for predicates that steps keep.
-- - Zlib.antt: the C library zlib, a parameter with its documented laws.
-- - Protocol: server/bitchatd/protocol. Constants and MessageType are constants.py, Packet is packet.py,
--   Padding and Codec are codec.py: `encode` is in Codec/Encode.antt, `decode` and `_decode_raw` are in
--   Codec/Decode.antt, under the names of the source without the leading underscore. Announce.antt is
--   announce.py.
-- - Messages: messages/message.py. Encode and Decode hold the two functions with their helpers; Fields,
--   Content and Flags have what is read from what is written.
-- - Mesh/Relay: mesh/relay_engine.py. Cache holds `_is_seen` and `_mark_seen`, Route the source-route
--   helpers, Decision `_should_relay`, Engine `handle_relay`.
-- - Mesh/Fragments: mesh/fragment_manager.py. Payload is the fragment header, Split `create_fragments`,
--   Manager the state and `_remove_set`, Receive `handle_fragment`, Cleanup `_cleanup_old` and the
--   eviction of rescued fragments.
-- - Mesh/Peers.antt: mesh/peer_manager.py, with a map from identifiers to peers as its abstract view;
--   Peers/History.antt has what the calls so far say of a peer.
-- - Mesh/Session: mesh/session_manager.py. State holds the attributes, the environment and the actions.
--   Payload encodes what is put in encrypted packets; Sniff, Files, Incoming and Parse read it. Outgoing
--   makes packets. Announces handles ANNOUNCE, LEAVE, REQUEST_SYNC and the timeout; Handshake, Encrypted
--   and Packets handle the other types and `handle_packet`; Pending is the queue of unsent messages;
--   Commands is `handle_command`. Invariant, Delivery and Received hold proofs, as do the other children.
-- - Crypto/Noise.antt: crypto/noise_session.py over the library dissononce, a parameter.
-- - Daemon: server/daemon.py. Repeats is the table of `_is_dispatch_duplicate`, Dispatch `_dispatch`,
--   named `dispatch_packet`, and Sending the functions that send and receive; Invariant, Table,
--   Once and Link hold the proofs.
-- - Tests: runs at concrete inputs.
--
-- How state is modelled: an object is a record, and a method a function from the record to the new one,
-- the result, and a list of what it sends or reports. The clock, random bytes and callbacks are arguments.
-- An exception that the code catches, or that leaves the call, is `none` or a result of its own. The
-- session manager asks its environment for clock readings, UUIDs, reachable peers and files; the answers
-- are functions of the number of the call, so that a later answer may differ from an earlier one.
--
-- Bounds and fuel: byte values are below 256 where a lemma needs it, and integers of `struct` have their
-- width written out in `pack`. `chunks_from` has the length of the data as fuel, and a step consumes at
-- least one byte where the size is not 0; `evict_rescue` has the number of rescued transfers as fuel, and
-- a step drops one. The fields of an announcement and of a file transfer are read with the length of the
-- data as fuel, and a field has two bytes at least. The fuel of `dispatch_packet` is the number of frames that
-- Python's stack has left; the call raises without one, as RecursionError does. All other loops are structural.
--
-- What is modelled in part: clocks are read in whole milliseconds, and a difference of clock readings
-- stops at 0 where Python's is negative, which no comparison with a positive limit tells apart. The five
-- probabilities of the relay are exact fractions of 2 ^ 53. The caps of the fragment manager add before
-- they subtract; its differences do not get negative, since a set counts the bytes it holds.
--
-- What is not modelled: key files and key generation (an identity is a record of its keys), the
-- library cryptography (its `sign` is a parameter), the control API, Bluetooth with the sending of
-- packets, the start and stop of the daemon, the JSON file of the rescue cache, asyncio tasks (a
-- method runs to its end before the next one starts), log lines, and the client.
pub mod Prelude
pub mod Bytes
pub mod Zlib
pub mod Dict
pub mod Exec
pub mod Text
pub mod Protocol
pub mod Messages
pub mod Mesh
pub mod Crypto
pub mod Daemon
mod Tests
