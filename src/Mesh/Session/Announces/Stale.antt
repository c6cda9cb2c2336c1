-- ===== src/Mesh/Session/Announces/Stale.antt =====
-- The peers that a round of the timeout finds stale, and what the round does.
use bit_chat_pi.Dict.Laws.{find_or-get}
use bit_chat_pi.Prelude.{
  Bool, Bool-cases, List, Option, [], ap, arith, false, if◌then◌else◌, inl, inr, list_beq_iff, ltb,
  map, none, refl, some, subst, sym, take, ℕ, ◌&&◌, ◌++◌, ◌+◌, ◌-◌, ◌=?◌, ◌||◌, ◌∙◌, ◌∷◌, ◌≡◌,
  list_eq,
}
use bit_chat_pi.Text.{Text}
use bit_chat_pi.Dict.{Dict, find_or, get, has, remove}
use bit_chat_pi.Dict.Keys.{Fresh-cons, IsDict, get-remove_ne}
use bit_chat_pi.Dict.Select.{pop_all}
use bit_chat_pi.Dict.Popped.{Distinct, get-pop_all, is_listed}
use bit_chat_pi.Crypto.Noise.{NoiseLibrary}
use bit_chat_pi.Mesh.Session.State.{Action, Environment, Manager, peer_lost, publish}
use bit_chat_pi.Mesh.Session.Announces.{stale_at, sweep}
use bit_chat_pi.Mesh.Session.Announces.Forgets.{AllDicts}
use bit_chat_pi.Mesh.Session.Announces.Sweep.{for_each-time_out, lost_events, without_all}

-- What is reported of a peer that is lost.
abbrev pub report_lost : Dict Text Text → Text → Action
report_lost peers k = publish (peer_lost k (find_or k (take 8 k) peers))

is_listed-cons :
    (k j : Text) (ks : List Text)
    → is_listed k (j ∷ ks) ≡ false
    → ((k =? j) ≡ false) × (is_listed k ks ≡ false)
is_listed-cons k j ks h = ground arith

ne-symmetric : (k j : Text) → (k =? j) ≡ false → (j =? k) ≡ false
ne-symmetric k j h = ground (arith, list_beq_iff k j, list_beq_iff j k)

report_lost-remove :
    (k : Text) (peers : Dict Text Text) (ks : List Text)
    → is_listed k ks ≡ false
    → map (report_lost (remove k peers)) ks ≡ map (report_lost peers) ks
report_lost-remove k peers [] h = refl
report_lost-remove k peers (j ∷ ks) h =
    let (other, rest) = is_listed-cons k j ks h in
    let same =
      find_or-get j j (take 8 j) (remove k peers) peers
        (get-remove_ne k j peers (ne-symmetric k j other)) in
    ap (λ n. publish (peer_lost j n) ∷ map (report_lost (remove k peers)) ks) same
    ∙ ap (◌∷◌ (report_lost peers j)) (report_lost-remove k peers ks rest)

lost_events-map :
    (peers : Dict Text Text) (ks : List Text)
    → Distinct ks
    → lost_events peers ks ≡ map (report_lost peers) ks
lost_events-map peers [] h = refl
lost_events-map peers (k ∷ ks) h =
    ap (◌∷◌ (report_lost peers k))
      (lost_events-map (remove k peers) ks h.1 ∙ report_lost-remove k peers ks h.0)

module _ (timeout : ℕ) where
  abbrev pub stale_since : ℕ → Bool → Option ℕ → Bool
  stale_since now known none = false
  stale_since now known (some last) = ltb timeout (now - last) && known

  -- Known, and not heard of for longer than the timeout.
  abbrev pub is_stale_at : ℕ → Dict Text Text → Dict Text ℕ → Text → Bool
  is_stale_at now peers seen j = stale_since now (has j peers) (get j seen)

  stale_at_missing :
      (now : ℕ) (peers : Dict Text Text) (seen : Dict Text ℕ) (j : Text)
      → get j seen ≡ none
      → is_listed j (stale_at timeout now peers seen) ≡ false
  unfolding get
  stale_at_missing now peers [] j h = refl
  stale_at_missing now peers ((k, last) ∷ seen) j h =
      let (other, missing) = Fresh-cons j k last seen h in
      ground (arith, stale_at_missing now peers seen j missing)

  -- The list holds exactly the stale peers.
  is_listed-stale_at :
      (now : ℕ) (peers : Dict Text Text) (seen : Dict Text ℕ) (j : Text)
      → IsDict seen
      → is_listed j (stale_at timeout now peers seen) ≡ is_stale_at now peers seen j
  unfolding get
  is_listed-stale_at now peers [] j h = refl
  is_listed-stale_at now peers ((k, last) ∷ seen) j h = elim (Bool-cases (j =? k)) [
    | inl same ↦
        let eq : j ≡ k = (list_beq_iff j k).0 same in
        let test = ap (λ i. ltb timeout (now - last) && has i peers) eq in
        let found : get j ((k, last) ∷ seen) ≡ some last = rw same refl in
        let here = ap (stale_since now (has j peers)) found ∙ test in
        let fresh : get j seen ≡ none = ap (λ i. get i seen) eq ∙ h.0 in
        elim (Bool-cases (ltb timeout (now - last) && has k peers)) [
          | inl stale ↦ rw stale (
              ap (λ t. t || is_listed j (stale_at timeout now peers seen)) same
              ∙ sym (here ∙ stale))
          | inr kept ↦ rw kept (stale_at_missing now peers seen j fresh ∙ sym (here ∙ kept))
        ]
    | inr other ↦
        let found : get j ((k, last) ∷ seen) ≡ get j seen = rw other refl in
        let there =
          is_listed-stale_at now peers seen j h.1
          ∙ sym (ap (stale_since now (has j peers)) found) in
        elim (Bool-cases (ltb timeout (now - last) && has k peers)) [
          | inl stale ↦
              rw stale (ap (λ t. t || is_listed j (stale_at timeout now peers seen)) other ∙ there)
          | inr kept ↦ rw kept there
        ]
  ]

  stale_at-Distinct :
      (now : ℕ) (peers : Dict Text Text) (seen : Dict Text ℕ)
      → IsDict seen
      → Distinct (stale_at timeout now peers seen)
  stale_at-Distinct now peers [] h = tt
  stale_at-Distinct now peers ((k, last) ∷ seen) h =
      elim (Bool-cases (ltb timeout (now - last) && has k peers)) [
        | inl stale ↦
            rw stale (stale_at_missing now peers seen k h.0, stale_at-Distinct now peers seen h.1)
        | inr kept ↦ rw kept (stale_at-Distinct now peers seen h.1)
      ]

-- `d'` is `d` without the peers that pass a test.
abbrev pub Drops : {V : Type 0} → (Text → Bool) → Dict Text V → Dict Text V → Type 0
Drops test d d' = (j : Text) → get j d' ≡ (if test j then none else get j d)

Drops-pop_all :
    {V : Type 0} (test : Text → Bool) (ks : List Text) (d : Dict Text V)
    → ((j : Text) → is_listed j ks ≡ test j)
    → IsDict d
    → Drops test d (pop_all ks d)
Drops-pop_all test ks d h dict j =
    get-pop_all j ks d dict ∙ ap (λ t. if t then none else get j d) (h j)

module _ (env : Environment) (lib : NoiseLibrary) where
  -- Of the peers that pass a test nothing is left but the count of failed decryptions, which stays as it is,
  -- and everything of the others.
  pub record Sweeps (test : Text → Bool) (s s' : Manager lib) : Type 0 where
    pub sessions : Drops test s.sessions s'.sessions
    pub peers : Drops test s.peers s'.peers
    pub peer_noise_pub : Drops test s.peer_noise_pub s'.peer_noise_pub
    pub peer_last_seen : Drops test s.peer_last_seen s'.peer_last_seen
    pub last_announced : Drops test s.last_announced s'.last_announced
    pub last_msg1 : Drops test s.last_msg1 s'.last_msg1
    pub pending_msg2 : Drops test s.pending_msg2 s'.pending_msg2
    pub pending_sends : Drops test s.pending_sends s'.pending_sends
    pub session_timestamps : Drops test s.session_timestamps s'.session_timestamps
    pub decrypt_fail_count : s'.decrypt_fail_count ≡ s.decrypt_fail_count
    pub nickname : s'.nickname ≡ s.nickname

  Sweeps-without_all :
      (test : Text → Bool) (ks : List Text) (s : Manager lib)
      → AllDicts lib s
      → ((j : Text) → is_listed j ks ≡ test j)
      → {calls : ℕ} {trace : List Action}
      → Sweeps test s (record (without_all env lib ks s) { calls = calls; trace = trace })
  Sweeps-without_all test ks s h same {calls} {trace} = record {
    sessions = Drops-pop_all test ks s.sessions same h.sessions;
    peers = Drops-pop_all test ks s.peers same h.peers;
    peer_noise_pub = Drops-pop_all test ks s.peer_noise_pub same h.peer_noise_pub;
    peer_last_seen = Drops-pop_all test ks s.peer_last_seen same h.peer_last_seen;
    last_announced = Drops-pop_all test ks s.last_announced same h.last_announced;
    last_msg1 = Drops-pop_all test ks s.last_msg1 same h.last_msg1;
    pending_msg2 = Drops-pop_all test ks s.pending_msg2 same h.pending_msg2;
    pending_sends = Drops-pop_all test ks s.pending_sends same h.pending_sends;
    session_timestamps = Drops-pop_all test ks s.session_timestamps same h.session_timestamps;
    decrypt_fail_count = refl;
    nickname = refl;
  }

  -- A round of the timeout forgets the known peers of which nothing was heard for longer than the
  -- timeout, and no other, keeps only their counts of failed decryptions, and reports each of them once, with its nickname, in the order of last_seen.
  pub sweep-Sweeps :
      (s : Manager lib)
      → AllDicts lib s
      → let now = env.clock s.calls in
        let (r, s') = sweep env lib s in
        (r ≡ some tt)
        × Sweeps (is_stale_at env.peer_timeout now s.peers s.peer_last_seen) s s'
        × (s'.trace
            ≡ s.trace
              ++ map (report_lost s.peers) (stale_at env.peer_timeout now s.peers s.peer_last_seen))
  unfolding sweep
  sweep-Sweeps s h =
      let now = env.clock s.calls in
      let ks = stale_at env.peer_timeout now s.peers s.peer_last_seen in
      let whole = for_each-time_out env lib ks (record s { calls = s.calls + 1 }) in
      let test = is_stale_at env.peer_timeout now s.peers s.peer_last_seen in
      (
        ap (λ x. x.0) whole,
        subst (λ (x : Option (Unit {0}) × Manager lib). Sweeps test s x.1) (sym whole)
            (Sweeps-without_all test ks s h (λ j.
              is_listed-stale_at env.peer_timeout now s.peers s.peer_last_seen j h.peer_last_seen)),
        ap (λ x. x.1.trace) whole
            ∙ ap (◌++◌ s.trace) (
                lost_events-map s.peers ks (
                  stale_at-Distinct env.peer_timeout now s.peers s.peer_last_seen
                    h.peer_last_seen)),
      )
