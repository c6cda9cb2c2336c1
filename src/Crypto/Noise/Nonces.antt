-- ===== src/Crypto/Noise/Nonces.antt =====
-- The nonces of a session, and the states it can reach.
use bit_chat_pi.Prelude.{
  Bool, Bool-cases, Option, Option-cases, [], ap, arith, drop, false, inl, inr, is_some, length,
  ltb, none, refl, some, true, ℕ, ◌<◌, ◌^◌, ◌∙◌, ◌≡◌, ◌≤◌, ◌⊎◌,
}
use bit_chat_pi.Bytes.{Bytes, from_be, pack_fits, slice}
use bit_chat_pi.Protocol.Constants.{noise_rekey_msg_limit_session}
use bit_chat_pi.Crypto.Noise.{
  NoiseLibrary, NoiseSession, SessionState, create, decrypt, decrypt_with, encrypt, fail, failed,
  handshake, maybe_rekey, nonce_max, read_handshake_message, read_in, rekey_due, rekeyed, send_now,
  send_with, transport, write_handshake_message, written,
}

module _ (lib : NoiseLibrary) where
  -- The calls that change a session.
  pub data SessionStep (s : NoiseSession lib) : NoiseSession lib → Type 0 where
    write :
        (now : ℕ) (payload : Bytes) → SessionStep s (write_handshake_message lib now payload s).0
    read : (now : ℕ) (xs : Bytes) → SessionStep s (read_handshake_message lib now xs s).0
    seal : (now now' : ℕ) (plaintext : Bytes) → SessionStep s (encrypt lib now now' plaintext s).0
    unseal : (wire : Bytes) → SessionStep s (decrypt lib wire s).0

  pub data ReachableSession : NoiseSession lib → Type 0 where
    created :
        (initiator : Bool) (now : ℕ) (keypair : Bytes)
        → ReachableSession (create lib initiator now keypair)
    stepped :
        {s s' : NoiseSession lib} → ReachableSession s → SessionStep s s' → ReachableSession s'

  -- The nonce is the number of messages since the last rekeying, at most 10,000, and an established
  -- session has both ciphers.
  pub record IsSession (s : NoiseSession lib) : Type 0 where
    pub nonce : s.send_nonce ≡ s.msg_count
    pub few : s.msg_count ≤ noise_rekey_msg_limit_session
    pub ready : s.state ≡ transport → (is_some s.cs_send ≡ true) × (is_some s.cs_recv ≡ true)

  state_cases : (st : SessionState) → (st ≡ handshake) ⊎ (st ≡ transport) ⊎ (st ≡ failed)
  state_cases handshake = inl refl
  state_cases transport = inr (inl refl)
  state_cases failed = inr (inr refl)

  written-IsSession :
      (now : ℕ) (s : NoiseSession lib)
      (o : Option (lib.Handshake × Bytes × Option (lib.Cipher × lib.Cipher)))
      → IsSession s
      → IsSession (written lib now s o).0 × IsSession (read_in lib now s o).0
  written-IsSession now s none h =
      let f : IsSession (fail lib s) = record { nonce = h.nonce; few = h.few; ready = λ e. cc } in
      (f, f)
  written-IsSession now s (some (hs, buf, none)) h =
      let f : IsSession (record s { hs = hs }) = record {
        nonce = h.nonce;
        few = h.few;
        ready = h.ready;
      } in
      (f, f)
  written-IsSession now s (some (hs, buf, some (first, second))) h = (
    record { nonce = h.nonce; few = h.few; ready = λ e. (refl, refl) },
    record { nonce = h.nonce; few = h.few; ready = λ e. (refl, refl) },
  )

  write-IsSession :
      (now : ℕ) (payload : Bytes) (s : NoiseSession lib)
      → IsSession s
      → IsSession (write_handshake_message lib now payload s).0
  unfolding write_handshake_message
  write-IsSession now payload s h =
      let w = (written-IsSession now s (lib.write_message s.hs payload) h).0 in
      elim (state_cases s.state) [
        | inl e ↦ rw (e, write_handshake_message) w
        | inr (inl e) ↦ rw (e, write_handshake_message) w
        | inr (inr e) ↦ rw (e, write_handshake_message) h
      ]

  read-IsSession :
      (now : ℕ) (xs : Bytes) (s : NoiseSession lib)
      → IsSession s
      → IsSession (read_handshake_message lib now xs s).0
  unfolding read_handshake_message
  read-IsSession now xs s h =
      let w = (written-IsSession now s (lib.read_message s.hs xs) h).1 in
      elim (state_cases s.state) [
        | inl e ↦ rw (e, read_handshake_message) w
        | inr (inl e) ↦ rw (e, read_handshake_message) w
        | inr (inr e) ↦ rw (e, read_handshake_message) h
      ]

  rekeyed_same : (o : Option lib.Cipher) → is_some (rekeyed lib o) ≡ is_some o
  rekeyed_same none = refl
  rekeyed_same (some c) = refl

  maybe_rekey-IsSession :
      (now now' : ℕ) (s : NoiseSession lib)
      → IsSession s
      → IsSession (maybe_rekey lib now now' s)
        × ((maybe_rekey lib now now' s).msg_count < noise_rekey_msg_limit_session)
  unfolding maybe_rekey
  maybe_rekey-IsSession now now' s h = elim (Bool-cases (rekey_due lib now s)) [
    | inl due ↦
        rw (due, maybe_rekey)
          (
            record {
              nonce = refl;
              few = omega arith;
              ready = λ e.
                  (rekeyed_same s.cs_send ∙ (h.ready e).0, rekeyed_same s.cs_recv ∙ (h.ready e).1);
            },
            omega arith,
          )
    | inr early ↦ rw (early, maybe_rekey) (h, ground arith)
  ]

  send_now-IsSession :
      (plaintext : Bytes) (s : NoiseSession lib)
      → IsSession s
      → s.msg_count < noise_rekey_msg_limit_session
      → IsSession (send_now lib plaintext s).0
  unfolding send_now send_with
  send_now-IsSession plaintext s h few = elim (Option-cases s.cs_send) [
    | inl e ↦ rw (e, send_now) h
    | inr (c, e) ↦
        rw (e, send_now)
          (record {
            nonce = omega (arith, h.nonce);
            few = omega (arith, few);
            ready = λ st. (refl, (h.ready st).1);
          })
  ]

  encrypt-IsSession :
      (now now' : ℕ) (plaintext : Bytes) (s : NoiseSession lib)
      → IsSession s
      → IsSession (encrypt lib now now' plaintext s).0
  unfolding encrypt
  encrypt-IsSession now now' plaintext s h =
      let (h', few) = maybe_rekey-IsSession now now' s h in
      let sent = send_now-IsSession plaintext (maybe_rekey lib now now' s) h' few in
      elim (state_cases s.state) [
        | inl e ↦ rw (e, encrypt) h
        | inr (inr e) ↦ rw (e, encrypt) h
        | inr (inl e) ↦ elim (Option-cases s.cs_send) [
          | inl e2 ↦ rw (e, encrypt, e2, encrypt) h
          | inr (c, e2) ↦ elim (Bool-cases (ltb nonce_max s.send_nonce)) [
            | inl large ↦ rw (e, encrypt, e2, encrypt, large) h
            | inr small ↦ rw (e, encrypt, e2, encrypt, small) sent
          ]
        ]
      ]

  with_recv-IsSession :
      (s : NoiseSession lib) (c : lib.Cipher)
      → IsSession s
      → IsSession (record s { cs_recv = some c })
  with_recv-IsSession s c h = record {
    nonce = h.nonce;
    few = h.few;
    ready = λ e. ((h.ready e).0, refl);
  }

  decrypt_with-IsSession :
      (c : lib.Cipher) (wire : Bytes) (s : NoiseSession lib)
      → IsSession s
      → IsSession (decrypt_with lib c wire s).0
  unfolding decrypt_with
  decrypt_with-IsSession c wire s h =
      let at_nonce = lib.set_nonce (from_be (slice wire 0 4)) c in
      elim (Option-cases (lib.decrypt_with_ad at_nonce [] (drop 4 wire))) [
        | inl e ↦ rw (e, decrypt_with) (with_recv-IsSession s at_nonce h)
        | inr ((c', plaintext), e) ↦ rw (e, decrypt_with) (with_recv-IsSession s c' h)
      ]

  decrypt-IsSession :
      (wire : Bytes) (s : NoiseSession lib) → IsSession s → IsSession (decrypt lib wire s).0
  unfolding decrypt
  decrypt-IsSession wire s h = elim (state_cases s.state) [
    | inl e ↦ rw (e, decrypt) h
    | inr (inr e) ↦ rw (e, decrypt) h
    | inr (inl e) ↦ elim (Option-cases s.cs_recv) [
      | inl e2 ↦ rw (e, decrypt, e2, decrypt) h
      | inr (c, e2) ↦ elim (Bool-cases (ltb (length wire) 20)) [
        | inl short ↦ rw (e, decrypt, e2, decrypt, short) h
        | inr long ↦ rw (e, decrypt, e2, decrypt, long) (decrypt_with-IsSession c wire s h)
      ]
    ]
  ]

  step-IsSession : {s s' : NoiseSession lib} → SessionStep s s' → IsSession s → IsSession s'
  step-IsSession {s} (write now payload) h = write-IsSession now payload s h
  step-IsSession {s} (read now xs) h = read-IsSession now xs s h
  step-IsSession {s} (seal now now' plaintext) h = encrypt-IsSession now now' plaintext s h
  step-IsSession {s} (unseal wire) h = decrypt-IsSession wire s h

  -- In every session that the calls can reach the nonce is the number of messages since the last
  -- rekeying, at most 10,000, and an established session has both ciphers.
  pub ReachableSession-IsSession : {s : NoiseSession lib} → ReachableSession s → IsSession s
  ReachableSession-IsSession (created initiator now keypair) = record {
    nonce = refl;
    few = omega arith;
    ready = λ e. cc;
  }
  ReachableSession-IsSession (stepped path step) =
      step-IsSession step (ReachableSession-IsSession path)

  maybe_rekey_send :
      (now now' : ℕ) (s : NoiseSession lib)
      → is_some (maybe_rekey lib now now' s).cs_send ≡ is_some s.cs_send
  unfolding maybe_rekey
  maybe_rekey_send now now' s = elim (Bool-cases (rekey_due lib now s)) [
    | inl due ↦ rw (due, maybe_rekey) (rekeyed_same s.cs_send)
    | inr early ↦ rw (early, maybe_rekey) refl
  ]

  send_now_total :
      (plaintext : Bytes) (s : NoiseSession lib)
      → is_some s.cs_send ≡ true
      → s.send_nonce < 256 ^ 4
      → is_some (send_now lib plaintext s).1 ≡ true
  unfolding send_now send_with
  send_now_total plaintext s has small = elim (Option-cases s.cs_send) [
    | inl e ↦ absurd (cc (has, ap is_some e))
    | inr (c, e) ↦ rw (e, send_now, pack_fits 4 s.send_nonce small) refl
  ]

  -- An established session never refuses to encrypt: the nonce cannot run out.
  pub encrypt_total :
      (s : NoiseSession lib) (now now' : ℕ) (plaintext : Bytes)
      → ReachableSession s
      → s.state ≡ transport
      → is_some (encrypt lib now now' plaintext s).1 ≡ true
  unfolding encrypt
  encrypt_total s now now' plaintext path st =
      let h = ReachableSession-IsSession path in
      let (h', few) = maybe_rekey-IsSession now now' s h in
      let (has, _) = h.ready st in
      let done =
        send_now_total plaintext (maybe_rekey lib now now' s) (maybe_rekey_send now now' s ∙ has)
          (omega (arith, h'.nonce, few)) in
      elim (Option-cases s.cs_send) [
        | inl e ↦ absurd (cc (has, ap is_some e))
        | inr (c, e) ↦
            let small : ltb nonce_max s.send_nonce ≡ false = ground (arith, h.nonce, h.few) in
            rw (st, encrypt, e, encrypt, small) done
      ]
