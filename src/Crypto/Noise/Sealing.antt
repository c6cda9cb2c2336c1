-- ===== src/Crypto/Noise/Sealing.antt =====
-- One message of a session: what `encrypt` writes, and that `decrypt` reads it.
use bit_chat_pi.Prelude.{
  All, List, Option, [], ap, arith, drop-append, false, if◌then◌else◌, length, length-append, ltb,
  none, refl, some, subst, sym, take-append, ℕ, ◌++◌, ◌+◌, ◌-◌, ◌<◌, ◌^◌, ◌∙◌, ◌∷◌, ◌≡◌, ◌≤◌,
}
use bit_chat_pi.Bytes.{Bytes, from_be-to_be, length-to_be, pack_fits, to_be}
use bit_chat_pi.Crypto.Noise.{
  NoiseLibrary, NoiseSession, decrypt, decrypt_with, encrypt, failed, handshake, maybe_rekey,
  nonce_max, rekey_due, send_now, send_with, transport,
}
use bit_chat_pi.Protocol.Constants.{noise_rekey_msg_limit_session, noise_rekey_time_ms}

-- What the Noise protocol states of a cipher: it has a key, which a message does not change, and a
-- cipher with the same key and nonce reads the message back. The tag has 16 bytes.
pub record NoiseLaws (lib : NoiseLibrary) : Type 1 where
  pub Key : Type 0
  pub key : lib.Cipher → Key
  pub key-set_nonce : (n : ℕ) (c : lib.Cipher) → key (lib.set_nonce n c) ≡ key c
  pub key-encrypt :
      (c : lib.Cipher) (ad plaintext : Bytes) → key (lib.encrypt_with_ad c ad plaintext).0 ≡ key c
  pub key-decrypt :
      (c d : lib.Cipher) (ad ct plaintext : Bytes)
      → lib.decrypt_with_ad c ad ct ≡ some (d, plaintext)
      → key d ≡ key c
  pub decrypt-encrypt :
      (c d : lib.Cipher) (n : ℕ) (ad plaintext : Bytes)
      → key c ≡ key d
      → (d' : lib.Cipher) × (lib.decrypt_with_ad
            (lib.set_nonce n d)
            ad
            (lib.encrypt_with_ad (lib.set_nonce n c) ad plaintext).1
          ≡ some (d', plaintext))
  pub length-encrypt :
      (c : lib.Cipher) (ad plaintext : Bytes)
      → length (lib.encrypt_with_ad c ad plaintext).1 ≡ length plaintext + 16

-- The messages that the calls give, each with its text; a call without a message gives none.
abbrev pub with_text : Option Bytes → Bytes → List (Bytes × Bytes) → List (Bytes × Bytes)
with_text none plaintext rest = rest
with_text (some wire) plaintext rest = (wire, plaintext) ∷ rest

module _ (lib : NoiseLibrary) (laws : NoiseLaws lib) where
  -- A message under the key, with its nonce in front.
  pub record Sealed (k : laws.Key) (wire plaintext : Bytes) : Type 0 where
    pub nonce : ℕ
    pub cipher : lib.Cipher
    pub small : nonce < 256 ^ 4
    pub under : laws.key cipher ≡ k
    pub shape :
        wire ≡ to_be 4 nonce ++ (lib.encrypt_with_ad (lib.set_nonce nonce cipher) [] plaintext).1

  -- An established session that sends, or receives, under the key.
  pub record Sends (k : laws.Key) (s : NoiseSession lib) : Type 0 where
    pub state : s.state ≡ transport
    pub cipher : lib.Cipher
    pub has : s.cs_send ≡ some cipher
    pub under : laws.key cipher ≡ k

  pub record Receives (k : laws.Key) (s : NoiseSession lib) : Type 0 where
    pub state : s.state ≡ transport
    pub cipher : lib.Cipher
    pub has : s.cs_recv ≡ some cipher
    pub under : laws.key cipher ≡ k

  pub decrypt-Sealed :
      (k : laws.Key) (r : NoiseSession lib) (wire plaintext : Bytes)
      → Receives k r
      → Sealed k wire plaintext
      → ((decrypt lib wire r).1 ≡ some plaintext) × Receives k (decrypt lib wire r).0
  unfolding decrypt decrypt_with
  decrypt-Sealed k r wire plaintext rc sealed =
      let ct = (lib.encrypt_with_ad (lib.set_nonce sealed.nonce sealed.cipher) [] plaintext).1 in
      let front = take-append 4 (to_be 4 sealed.nonce) ct (length-to_be 4 sealed.nonce) in
      let back = drop-append 4 (to_be 4 sealed.nonce) ct (length-to_be 4 sealed.nonce) in
      let value = from_be-to_be 4 sealed.nonce sealed.small in
      let (d', e) =
        laws.decrypt-encrypt sealed.cipher rc.cipher sealed.nonce [] plaintext
          (sealed.under ∙ sym rc.under) in
      let long : ltb (length (to_be 4 sealed.nonce ++ ct)) 20 ≡ false = ground (
        arith,
        length-append (to_be 4 sealed.nonce) ct,
        length-to_be 4 sealed.nonce,
        laws.length-encrypt (lib.set_nonce sealed.nonce sealed.cipher) [] plaintext,
      ) in
      let whole : decrypt lib (to_be 4 sealed.nonce ++ ct) r
          ≡ (record r { cs_recv = some d' }, some plaintext) =
        rw (rc.state, decrypt, rc.has, decrypt, long, decrypt_with, front, value, back, e)
          (ap
            (λ st.
              let r' : NoiseSession lib = record r { state = st; cs_recv = some d' } in
              (r', some plaintext))
            rc.state) in
      subst (λ x. (x.1 ≡ some plaintext) × Receives k x.0)
        (sym (ap (λ w. decrypt lib w r) sealed.shape ∙ whole))
        (
          refl,
          record {
            state = rc.state;
            cipher = d';
            has = refl;
            under =
                laws.key-decrypt (lib.set_nonce sealed.nonce rc.cipher) d' [] ct plaintext e
                ∙ laws.key-set_nonce sealed.nonce rc.cipher
                ∙ rc.under;
          },
        )

  -- The calls of `encrypt`: the two clock reads and the text.
  pub record Sending : Type 0 where
    pub now : ℕ
    pub now' : ℕ
    pub plaintext : Bytes

  unfoldable pub send_all : List Sending → NoiseSession lib → List (Bytes × Bytes)
  send_all [] s = []
  send_all (c ∷ cs) s =
      let (s', wire) = encrypt lib c.now c.now' c.plaintext s in
      with_text wire c.plaintext (send_all cs s')

  unfoldable pub receive_all : List Bytes → NoiseSession lib → List (Option Bytes)
  receive_all [] r = []
  receive_all (wire ∷ wires) r = (decrypt lib wire r).1 ∷ receive_all wires (decrypt lib wire r).0

  -- No rekeying falls due: fewer than an hour and than 10,000 messages.
  abbrev pub InEpoch : List Sending → NoiseSession lib → Type 0
  InEpoch cs s =
      All (λ c. c.now - s.session_start < noise_rekey_time_ms) cs
      × (s.send_nonce ≤ s.msg_count)
      × (s.msg_count + length cs ≤ noise_rekey_msg_limit_session)

  -- The steps of `encrypt`.
  encrypt_open :
      (s : NoiseSession lib) (c : lib.Cipher) (now now' : ℕ) (plaintext : Bytes)
      → s.state ≡ transport
      → s.cs_send ≡ some c
      → ltb nonce_max s.send_nonce ≡ false
      → encrypt lib now now' plaintext s ≡ send_now lib plaintext (maybe_rekey lib now now' s)
  unfolding encrypt
  encrypt_open s c now now' plaintext e1 e2 e3 =
      let last : NoiseSession lib × Option Bytes =
        if ltb nonce_max s.send_nonce
        then (s, none)
        else send_now lib plaintext (maybe_rekey lib now now' s) in
      ap
        (λ st.
          let x : NoiseSession lib × Option Bytes = elim st [
            | handshake ↦ (s, none)
            | failed ↦ (s, none)
            | transport ↦ elim s.cs_send [ none ↦ (s, none) | some c ↦ last ]
          ] in
          x)
        e1
      ∙ ap
          (λ o.
            let x : NoiseSession lib × Option Bytes = elim o [ none ↦ (s, none) | some c ↦ last ] in
            x)
          e2
      ∙ rw e3 refl

  rekey_not_due :
      (s : NoiseSession lib) (now now' : ℕ)
      → rekey_due lib now s ≡ false
      → maybe_rekey lib now now' s ≡ s
  unfolding maybe_rekey
  rekey_not_due s now now' e = rw e refl

  send_now_with :
      (s : NoiseSession lib) (c : lib.Cipher) (plaintext : Bytes)
      → s.cs_send ≡ some c
      → send_now lib plaintext s ≡ send_with lib c plaintext s
  unfolding send_now
  send_now_with s c plaintext e =
      ap
        (λ o.
          let x : NoiseSession lib × Option Bytes = elim o [
            | none ↦ (s, none)
            | some c ↦ send_with lib c plaintext s
          ] in
          x)
        e

  send_with_packed :
      (s : NoiseSession lib) (c : lib.Cipher) (plaintext : Bytes)
      → s.send_nonce < 256 ^ 4
      → let (c', ct) = lib.encrypt_with_ad (lib.set_nonce s.send_nonce c) [] plaintext in
        send_with lib c plaintext s ≡ (
          record s {
            cs_send = some c';
            send_nonce = s.send_nonce + 1;
            msg_count = s.msg_count + 1;
          },
          some (to_be 4 s.send_nonce ++ ct),
        )
  unfolding send_with
  send_with_packed s c plaintext small = rw (pack_fits 4 s.send_nonce small) refl

  pub encrypt-Sealed :
      (k : laws.Key) (s : NoiseSession lib) (c : Sending) (cs : List Sending)
      → Sends k s
      → InEpoch (c ∷ cs) s
      → let (s', wire) = encrypt lib c.now c.now' c.plaintext s in
        (w : Bytes) × (wire ≡ some w) × Sealed k w c.plaintext × Sends k s' × InEpoch cs s'
  unfolding encrypt maybe_rekey send_now send_with
  encrypt-Sealed k s c cs sc ((early, all), nonces, few) =
      let not_due : rekey_due lib c.now s ≡ false = ground arith in
      let small : ltb nonce_max s.send_nonce ≡ false = ground arith in
      let packed = pack_fits 4 s.send_nonce (omega arith) in
      let sent = lib.encrypt_with_ad (lib.set_nonce s.send_nonce sc.cipher) [] c.plaintext in
      let s' : NoiseSession lib = record s {
        cs_send = some sent.0;
        send_nonce = s.send_nonce + 1;
        msg_count = s.msg_count + 1;
      } in
      let whole =
        encrypt_open s sc.cipher c.now c.now' c.plaintext sc.state sc.has small
        ∙ ap (send_now lib c.plaintext) (rekey_not_due s c.now c.now' not_due)
        ∙ send_now_with s sc.cipher c.plaintext sc.has
        ∙ send_with_packed s sc.cipher c.plaintext (omega arith) in
      subst
        (λ (x : NoiseSession lib × Option Bytes).
          (w : Bytes) × (x.1 ≡ some w) × Sealed k w c.plaintext × Sends k x.0 × InEpoch cs x.0)
        (sym whole)
        (
          to_be 4 s.send_nonce ++ sent.1,
          refl,
          record {
            nonce = s.send_nonce;
            cipher = sc.cipher;
            small = omega arith;
            under = sc.under;
            shape = refl;
          },
          record {
            state = sc.state;
            cipher = sent.0;
            has = refl;
            under =
                laws.key-encrypt (lib.set_nonce s.send_nonce sc.cipher) [] c.plaintext
                ∙ laws.key-set_nonce s.send_nonce sc.cipher
                ∙ sc.under;
          },
          (all, omega arith, omega arith),
        )
