-- ===== src/Mesh/Session/Announces/Forgets.antt =====
-- Peers that leave or fall silent: what is forgotten of them, and that nothing else is.
use bit_chat_pi.Prelude.{[], false, none, refl, some, take, ◌++◌, ◌=?◌, ◌∷◌, ◌≡◌, list_eq}
use bit_chat_pi.Text.{Text}
use bit_chat_pi.Dict.{Dict, find_or, get, remove}
use bit_chat_pi.Dict.Keys.{IsDict, get-remove_ne, get-remove_self}
use bit_chat_pi.Crypto.Noise.{NoiseLibrary}
use bit_chat_pi.Mesh.Session.State.{Manager, peer_lost, publish}
use bit_chat_pi.Mesh.Session.Announces.{handle_leave}

-- `d'` is `d` without the entry at `k`.
pub record Without {V : Type 0} (k : Text) (d d' : Dict Text V) : Type 0 where
  pub gone : get k d' ≡ none
  pub kept : (j : Text) → (j =? k) ≡ false → get j d' ≡ get j d

Without-remove : {V : Type 0} (k : Text) (d : Dict Text V) → IsDict d → Without k d (remove k d)
Without-remove k d h = record { gone = get-remove_self k d h; kept = λ j. get-remove_ne k j d }

module _ (lib : NoiseLibrary) where
  -- Every dictionary has distinct keys.
  pub record AllDicts (s : Manager lib) : Type 0 where
    pub sessions : IsDict s.sessions
    pub peers : IsDict s.peers
    pub peer_noise_pub : IsDict s.peer_noise_pub
    pub peer_last_seen : IsDict s.peer_last_seen
    pub last_announced : IsDict s.last_announced
    pub last_msg1 : IsDict s.last_msg1
    pub pending_msg2 : IsDict s.pending_msg2
    pub pending_sends : IsDict s.pending_sends
    pub session_timestamps : IsDict s.session_timestamps
    pub decrypt_fail_count : IsDict s.decrypt_fail_count

  -- The peer is in no dictionary any more but two, which stay as they are: when it was last heard of, and how
  -- often decryption failed. All that was known of others stays, as does the own nickname.
  pub record Forgets (peer_hex : Text) (s s' : Manager lib) : Type 0 where
    pub sessions : Without peer_hex s.sessions s'.sessions
    pub peers : Without peer_hex s.peers s'.peers
    pub peer_noise_pub : Without peer_hex s.peer_noise_pub s'.peer_noise_pub
    pub last_announced : Without peer_hex s.last_announced s'.last_announced
    pub last_msg1 : Without peer_hex s.last_msg1 s'.last_msg1
    pub pending_msg2 : Without peer_hex s.pending_msg2 s'.pending_msg2
    pub pending_sends : Without peer_hex s.pending_sends s'.pending_sends
    pub session_timestamps : Without peer_hex s.session_timestamps s'.session_timestamps
    pub peer_last_seen : s'.peer_last_seen ≡ s.peer_last_seen
    pub decrypt_fail_count : s'.decrypt_fail_count ≡ s.decrypt_fail_count
    pub nickname : s'.nickname ≡ s.nickname

  -- A peer that leaves is forgotten: its name, keys and session, the cached messages of its handshake and the
  -- messages that wait for it. When it was last heard of and its failed decryptions are kept, as is all that is
  -- known of other peers. It is reported as lost once, with its nickname, or with the first eight digits of its
  -- identifier where none is known. All dictionaries have distinct keys.
  pub handle_leave-Forgets :
      (peer_hex : Text) (s : Manager lib)
      → AllDicts s
      → let (r, s') = handle_leave lib peer_hex s in
        (r ≡ some tt)
        × Forgets peer_hex s s'
        × (s'.trace
            ≡ s.trace
              ++ publish (peer_lost peer_hex (find_or peer_hex (take 8 peer_hex) s.peers)) ∷ [])
  unfolding handle_leave
  handle_leave-Forgets peer_hex s h = (
    refl,
    record {
      sessions = Without-remove peer_hex s.sessions h.sessions;
      peers = Without-remove peer_hex s.peers h.peers;
      peer_noise_pub = Without-remove peer_hex s.peer_noise_pub h.peer_noise_pub;
      last_announced = Without-remove peer_hex s.last_announced h.last_announced;
      last_msg1 = Without-remove peer_hex s.last_msg1 h.last_msg1;
      pending_msg2 = Without-remove peer_hex s.pending_msg2 h.pending_msg2;
      pending_sends = Without-remove peer_hex s.pending_sends h.pending_sends;
      session_timestamps = Without-remove peer_hex s.session_timestamps h.session_timestamps;
      peer_last_seen = refl;
      decrypt_fail_count = refl;
      nickname = refl;
    },
    refl,
  )
