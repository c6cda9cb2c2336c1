-- ===== src/Mesh/Session/Invariant/Sessions.antt =====
-- The changes of the sessions and of the messages of their handshakes keep the invariant.
use bit_chat_pi.Prelude.{
  Bool-cases, ap, arith, false, inl, inr, is_some, list_beq_iff, none, sym, true, ◌=?◌, ◌∙◌, ◌≡◌,
  list_eq,
}
use bit_chat_pi.Bytes.{Bytes}
use bit_chat_pi.Text.{Text}
use bit_chat_pi.Exec.{modify}
use bit_chat_pi.Exec.Keeps.{Keeps, Leads}
use bit_chat_pi.Dict.{Dict, get, set}
use bit_chat_pi.Dict.Keys.{
  Fresh-remove, get-set-none, get-set_ne, get-set_self, remove-IsDict, removed_within, set-IsDict,
}
use bit_chat_pi.Crypto.Noise.{NoiseLibrary, NoiseSession}
use bit_chat_pi.Mesh.Session.State.{Environment, Manager}
use bit_chat_pi.Mesh.Session.Announces.{forget_peer, is_changed, note_noise_pub, reset_session}
use bit_chat_pi.Mesh.Session.Handshake.{clear_messages, drop_session}
use bit_chat_pi.Mesh.Session.Pending.{keep_session}
use bit_chat_pi.Mesh.Session.Invariant.{IsManager, WithSession}

module _ (lib : NoiseLibrary) (k : Text) where
  pub keep_session-WithSession :
      (sess : NoiseSession lib)
      → Leads (IsManager lib) (WithSession lib k) (modify (keep_session lib k sess))
  keep_session-WithSession sess = record {
    at = λ s h. record {
      valid = record {
        dicts = ground (arith, h.dicts, set-IsDict k sess s.sessions h.dicts.sessions);
        msg1_of_session =
            λ j none_of. h.msg1_of_session j (get-set-none k j sess s.sessions none_of);
        msg2_of_session =
            λ j none_of. h.msg2_of_session j (get-set-none k j sess s.sessions none_of);
      };
      known = ap is_some (get-set_self k sess s.sessions);
    };
  }

  pub keep_session-again :
      (sess : NoiseSession lib) → Keeps (WithSession lib k) (modify (keep_session lib k sess))
  keep_session-again sess = record { at = λ s h. (keep_session-WithSession sess).at s h.valid }

  pub keep_session-IsManager :
      (sess : NoiseSession lib) → Keeps (IsManager lib) (modify (keep_session lib k sess))
  keep_session-IsManager sess = record {
    at = λ s h. ((keep_session-WithSession sess).at s h).valid;
  }

  pub clear_messages-IsManager : Keeps (IsManager lib) (modify (clear_messages lib k))
  clear_messages-IsManager = record {
    at = λ s h. record {
      dicts = ground (
        arith,
        h.dicts,
        remove-IsDict k s.pending_msg2 h.dicts.pending_msg2,
        remove-IsDict k s.last_msg1 h.dicts.last_msg1,
      );
      msg1_of_session = λ j none_of. Fresh-remove k j s.last_msg1 (h.msg1_of_session j none_of);
      msg2_of_session = λ j none_of. Fresh-remove k j s.pending_msg2 (h.msg2_of_session j none_of);
    };
  }

  pub drop_session-IsManager : Keeps (IsManager lib) (drop_session lib k)
  unfolding drop_session
  drop_session-IsManager = record {
    at = λ s h. record {
      dicts = ground (
        arith,
        h.dicts,
        remove-IsDict k s.sessions h.dicts.sessions,
        remove-IsDict k s.pending_msg2 h.dicts.pending_msg2,
        remove-IsDict k s.last_msg1 h.dicts.last_msg1,
      );
      msg1_of_session =
          λ j. removed_within k j s.sessions s.last_msg1 h.dicts.last_msg1 (h.msg1_of_session j);
      msg2_of_session = λ j.
          removed_within k j s.sessions s.pending_msg2 h.dicts.pending_msg2 (h.msg2_of_session j);
    };
  }

  pub reset_session-IsManager :
      (s : Manager lib) → IsManager lib s → IsManager lib (reset_session lib k s)
  reset_session-IsManager s h = record {
    dicts = ground (
      arith,
      h.dicts,
      remove-IsDict k s.sessions h.dicts.sessions,
      remove-IsDict k s.pending_msg2 h.dicts.pending_msg2,
      remove-IsDict k s.last_msg1 h.dicts.last_msg1,
      remove-IsDict k s.session_timestamps h.dicts.session_timestamps,
    );
    msg1_of_session =
        λ j. removed_within k j s.sessions s.last_msg1 h.dicts.last_msg1 (h.msg1_of_session j);
    msg2_of_session = λ j.
        removed_within k j s.sessions s.pending_msg2 h.dicts.pending_msg2 (h.msg2_of_session j);
  }

  pub forget_peer-IsManager : Keeps (IsManager lib) (modify (forget_peer lib k))
  unfolding forget_peer
  forget_peer-IsManager = record {
    at = λ s h. record {
      dicts = ground (
        arith,
        h.dicts,
        remove-IsDict k s.sessions h.dicts.sessions,
        remove-IsDict k s.pending_msg2 h.dicts.pending_msg2,
        remove-IsDict k s.last_msg1 h.dicts.last_msg1,
        remove-IsDict k s.session_timestamps h.dicts.session_timestamps,
        remove-IsDict k s.peers h.dicts.peers,
        remove-IsDict k s.peer_noise_pub h.dicts.peer_noise_pub,
        remove-IsDict k s.last_announced h.dicts.last_announced,
        remove-IsDict k s.pending_sends h.dicts.pending_sends,
      );
      msg1_of_session =
          λ j. removed_within k j s.sessions s.last_msg1 h.dicts.last_msg1 (h.msg1_of_session j);
      msg2_of_session = λ j.
          removed_within k j s.sessions s.pending_msg2 h.dicts.pending_msg2 (h.msg2_of_session j);
    };
  }

  set_noise_pub-IsManager :
      (v : Bytes) (s : Manager lib)
      → IsManager lib s
      → IsManager lib (record s { peer_noise_pub = set k v s.peer_noise_pub })
  set_noise_pub-IsManager v s h =
      ground (arith, set-IsDict k v s.peer_noise_pub h.dicts.peer_noise_pub)

  pub note_noise_pub-IsManager :
      (env : Environment) (v : Bytes) → Keeps (IsManager lib) (note_noise_pub env lib k v)
  unfolding note_noise_pub
  note_noise_pub-IsManager env v = record {
    at = λ s h. elim (Bool-cases (is_changed (get k s.peer_noise_pub) v)) [
      | inl changed ↦
          rw changed
            (set_noise_pub-IsManager v (reset_session lib k s) (reset_session-IsManager s h))
      | inr same ↦ rw same (set_noise_pub-IsManager v s h)
    ];
  }

  -- A message of a handshake is kept only with its session.
  kept_with_session :
      {W : Type 0} (v : W) (s : Manager lib) (m : Dict Text W)
      → is_some (get k s.sessions) ≡ true
      → ((j : Text) → get j s.sessions ≡ none → get j m ≡ none)
      → (j : Text) → get j s.sessions ≡ none
      → get j (set k v m) ≡ none
  kept_with_session v s m known within j none_of = elim (Bool-cases (j =? k)) [
    | inl same ↦
        let eq : j ≡ k = (list_beq_iff j k).0 same in
        let missing : get k s.sessions ≡ none = ap (λ i. get i s.sessions) (sym eq) ∙ none_of in
        let absent : false ≡ true = sym (ap is_some missing) ∙ known in cc
    | inr other ↦ get-set_ne k j v m other ∙ within j none_of
  ]

  pub set_msg1-WithSession :
      (v : Bytes)
      → Keeps
          (WithSession lib k)
          (modify (λ (s : Manager lib). record s { last_msg1 = set k v s.last_msg1 }))
  set_msg1-WithSession v = record {
    at = λ s h. record {
      valid = record {
        dicts = ground (arith, h.valid.dicts, set-IsDict k v s.last_msg1 h.valid.dicts.last_msg1);
        msg1_of_session = kept_with_session v s s.last_msg1 h.known h.valid.msg1_of_session;
        msg2_of_session = h.valid.msg2_of_session;
      };
      known = h.known;
    };
  }

  pub set_msg2-WithSession :
      (v : Bytes)
      → Keeps
          (WithSession lib k)
          (modify (λ (s : Manager lib). record s { pending_msg2 = set k v s.pending_msg2 }))
  set_msg2-WithSession v = record {
    at = λ s h. record {
      valid = record {
        dicts =
            ground (arith, h.valid.dicts, set-IsDict k v s.pending_msg2 h.valid.dicts.pending_msg2);
        msg1_of_session = h.valid.msg1_of_session;
        msg2_of_session = kept_with_session v s s.pending_msg2 h.known h.valid.msg2_of_session;
      };
      known = h.known;
    };
  }
