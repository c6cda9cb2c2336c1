-- ===== src/Mesh/Session/Announces/Sweep.antt =====
-- One round of the timeout: which peers are dropped, and what is said of them.
use bit_chat_pi.Prelude.{
  List, Option, [], ap, append-nil, append_assoc, some, sym, take, ◌++◌, ◌∙◌, ◌∷◌, ◌≡◌, list_eq,
}
use bit_chat_pi.Text.{Text}
use bit_chat_pi.Exec.{for_each}
use bit_chat_pi.Dict.{Dict, find_or, remove}
use bit_chat_pi.Dict.Select.{pop_all}
use bit_chat_pi.Crypto.Noise.{NoiseLibrary}
use bit_chat_pi.Mesh.Session.State.{Action, Environment, Manager, peer_lost, publish}
use bit_chat_pi.Mesh.Session.Announces.{time_out}

-- The reports, each with the nickname that the peer had.
abbrev pub lost_events : Dict Text Text → List Text → List Action
lost_events peers [] = []
lost_events peers (k ∷ ks) =
    publish (peer_lost k (find_or k (take 8 k) peers)) ∷ lost_events (remove k peers) ks

module _ (env : Environment) (lib : NoiseLibrary) where
  -- The state without some peers.
  abbrev pub without_all : List Text → Manager lib → Manager lib
  without_all ks s = record s {
    peers = pop_all ks s.peers;
    sessions = pop_all ks s.sessions;
    pending_msg2 = pop_all ks s.pending_msg2;
    last_msg1 = pop_all ks s.last_msg1;
    session_timestamps = pop_all ks s.session_timestamps;
    peer_noise_pub = pop_all ks s.peer_noise_pub;
    last_announced = pop_all ks s.last_announced;
    pending_sends = pop_all ks s.pending_sends;
    peer_last_seen = pop_all ks s.peer_last_seen;
  }

  pub for_each-time_out :
      (ks : List Text) (s : Manager lib)
      → for_each ks (time_out env lib) s
        ≡ (some tt, record (without_all ks s) { trace = s.trace ++ lost_events s.peers ks })
  unfolding for_each time_out
  for_each-time_out [] s =
      ap (λ t. let x : Option (Unit {0}) × Manager lib = (some tt, record s { trace = t }) in x)
        (sym (append-nil s.trace))
  for_each-time_out (k ∷ ks) s =
      let s' = (time_out env lib k s).1 in
      for_each-time_out ks s'
      ∙ ap
          (λ t.
            let x : Option (Unit {0}) × Manager lib =
              (some tt, record (without_all ks s') { trace = t }) in
            x)
          (append_assoc s.trace (publish (peer_lost k (find_or k (take 8 k) s.peers)) ∷ [])
            (lost_events (remove k s.peers) ks))
