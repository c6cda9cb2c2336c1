-- ===== src/Mesh/Session/Announces.antt =====
-- What a node does with the announcements and leave messages of a peer: `_handle_announce`,
-- `_handle_request_sync` and `_handle_leave` of server/bitchatd/mesh/session_manager.py.
pub mod Forgets
pub mod Sweep
pub mod Stale
pub mod Cooldown
use bit_chat_pi.Prelude.{
  Bool, List, Option, [], false, if◌then◌else◌, ltb, none, not, some, take, ℕ, ◌&&◌, ◌-◌, ◌=?◌, ◌∷◌,
  list_eq,
}
use bit_chat_pi.Bytes.{Bytes}
use bit_chat_pi.Text.{Text}
use bit_chat_pi.Exec.{for_each, gets, modify, pure, ◌>>=◌, ◌>>◌}
use bit_chat_pi.Dict.{Dict, find_or, get, has, remove, set}
use bit_chat_pi.Protocol.Packet.{Packet}
use bit_chat_pi.Protocol.Announce.{AnnouncePayload, decode_announce}
use bit_chat_pi.Crypto.Noise.{NoiseLibrary}
use bit_chat_pi.Mesh.Session.State.{
  Environment, Manager, Run, act, ask, peer_lost, peer_seen, publish,
}
use bit_chat_pi.Mesh.Session.Outgoing.{echo_announce}

-- Two optional values are one: a new value that is the old one changes nothing.
abbrev pub is_value : Option (List ℕ) → List ℕ → Bool
is_value none x = false
is_value (some old) x = old =? x

-- There is an old value, and it is another.
abbrev pub is_changed : Option (List ℕ) → List ℕ → Bool
is_changed none x = false
is_changed (some old) x = not (old =? x)

module _ (lib : NoiseLibrary) where
  -- The four `pop` calls that forget a session.
  abbrev pub reset_session : Text → Manager lib → Manager lib
  reset_session peer_hex s = record s {
    sessions = remove peer_hex s.sessions;
    pending_msg2 = remove peer_hex s.pending_msg2;
    last_msg1 = remove peer_hex s.last_msg1;
    session_timestamps = remove peer_hex s.session_timestamps;
  }

  -- The `pop` calls by which a peer that has left is forgotten.
  unfoldable pub forget_peer : Text → Manager lib → Manager lib
  forget_peer peer_hex s = record s {
    peers = remove peer_hex s.peers;
    sessions = remove peer_hex s.sessions;
    pending_msg2 = remove peer_hex s.pending_msg2;
    last_msg1 = remove peer_hex s.last_msg1;
    session_timestamps = remove peer_hex s.session_timestamps;
    peer_noise_pub = remove peer_hex s.peer_noise_pub;
    last_announced = remove peer_hex s.last_announced;
    pending_sends = remove peer_hex s.pending_sends;
  }

  unfoldable pub handle_leave : Text → Run lib (Unit {0})
  unfolding forget_peer
  handle_leave peer_hex = do
    nick ← gets (λ s. find_or peer_hex (take 8 peer_hex) s.peers)
    modify (forget_peer peer_hex)
    act lib (publish (peer_lost peer_hex nick))

-- The peers that are known and were not heard of for longer than the timeout.
abbrev pub stale_at : ℕ → ℕ → Dict Text Text → Dict Text ℕ → List Text
stale_at timeout now peers [] = []
stale_at timeout now peers ((peer_hex, last) ∷ seen) =
    if ltb timeout (now - last) && has peer_hex peers
    then peer_hex ∷ stale_at timeout now peers seen
    else stale_at timeout now peers seen

module _ (env : Environment) (lib : NoiseLibrary) where
  -- A nickname that is not the one known.
  unfoldable pub note_nickname : Text → Text → Run lib (Unit {0})
  note_nickname peer_hex nickname = do
    known ← gets (λ s. is_value (get peer_hex s.peers) nickname)
    if known then pure tt else (do
      modify (λ s. record s { peers = set peer_hex nickname s.peers })
      t ← ask lib env.clock
      last_seen ← gets (λ s. find_or peer_hex t s.peer_last_seen)
      act lib (publish (peer_seen peer_hex nickname last_seen)))

  -- A changed key means that the peer has started again: its session is stale.
  unfoldable pub note_noise_pub : Text → Bytes → Run lib (Unit {0})
  note_noise_pub peer_hex noise_pub = modify (λ s.
      let s' =
        if is_changed (get peer_hex s.peer_noise_pub) noise_pub
        then reset_session lib peer_hex s
        else s in
      record s' { peer_noise_pub = set peer_hex noise_pub s'.peer_noise_pub })

  unfoldable pub note_announcement : Text → Option AnnouncePayload → Run lib (Unit {0})
  note_announcement peer_hex none = pure tt
  note_announcement peer_hex (some ann) = do
    note_nickname peer_hex ann.nickname
    note_noise_pub peer_hex ann.noise_pub

  unfoldable pub handle_announce : Packet → Text → Run lib (Unit {0})
  handle_announce pkt peer_hex = do
    note_announcement peer_hex (decode_announce pkt.payload)
    echo_announce env lib peer_hex

  unfoldable pub handle_request_sync : Text → Run lib (Unit {0})
  handle_request_sync = echo_announce env lib

  -- One round of `_peer_timeout_loop`: a peer of which nothing was heard for too long.
  unfoldable pub time_out : Text → Run lib (Unit {0})
  unfolding forget_peer
  time_out peer_hex = do
    nick ← gets (λ s. find_or peer_hex (take 8 peer_hex) s.peers)
    modify (forget_peer lib peer_hex)
    modify (λ s. record s { peer_last_seen = remove peer_hex s.peer_last_seen })
    act lib (publish (peer_lost peer_hex nick))

  unfoldable pub sweep : Run lib (Unit {0})
  sweep = do
    now ← ask lib env.clock
    stale ← gets (λ s. stale_at env.peer_timeout now s.peers s.peer_last_seen)
    for_each stale time_out
