-- ===== src/Crypto/Noise.antt =====
-- server/bitchatd/crypto/noise_session.py: a Noise XX session with one peer. The library dissononce,
-- which the program calls and does not contain, is a parameter; `none` is an exception of it.
pub mod Sealing
pub mod Transport
pub mod Nonces
use bit_chat_pi.Prelude.{
  Bool, Option, [], drop, if◌then◌else◌, leb, length, ltb, none, some, ℕ, ◌++◌, ◌+◌, ◌-◌, ◌>>=◌,
  ◌||◌,
}
use bit_chat_pi.Bytes.{Bytes, from_be, pack, slice}
use bit_chat_pi.Protocol.Constants.{noise_rekey_msg_limit_session, noise_rekey_time_ms}

-- `CipherState` and `HandshakeState`. A handshake message gives the new state, the bytes of the
-- buffer, and the two ciphers when it is the last one.
pub record NoiseLibrary : Type 1 where
  pub Cipher : Type 0
  pub Handshake : Type 0
  pub initialize : Bool → Bytes → Handshake
  pub write_message : Handshake → Bytes → Option (Handshake × Bytes × Option (Cipher × Cipher))
  pub read_message : Handshake → Bytes → Option (Handshake × Bytes × Option (Cipher × Cipher))
  pub remote_static : Handshake → Option Bytes
  pub set_nonce : ℕ → Cipher → Cipher
  pub encrypt_with_ad : Cipher → Bytes → Bytes → Cipher × Bytes
  pub decrypt_with_ad : Cipher → Bytes → Bytes → Option (Cipher × Bytes)
  pub rekey : Cipher → Cipher

-- `_NONCE_MAX`
abbrev pub nonce_max : ℕ
nonce_max = 0xffff_ffff

pub data SessionState : Type 0 where
  handshake transport failed : SessionState

module _ (lib : NoiseLibrary) where
  -- Times are those of the monotonic clock, in milliseconds.
  pub record NoiseSession : Type 0 where
    pub hs : lib.Handshake
    pub initiator : Bool
    pub state : SessionState
    pub cs_send : Option lib.Cipher
    pub cs_recv : Option lib.Cipher
    pub remote_key : Option Bytes
    pub send_nonce : ℕ
    pub session_start : ℕ
    pub msg_count : ℕ

  -- `create_initiator` and `create_responder`
  abbrev pub create : Bool → ℕ → Bytes → NoiseSession
  create initiator now keypair = record {
    hs = lib.initialize initiator keypair;
    initiator = initiator;
    state = handshake;
    cs_send = none;
    cs_recv = none;
    remote_key = none;
    send_nonce = 0;
    session_start = now;
    msg_count = 0;
  }

  abbrev pub fail : NoiseSession → NoiseSession
  fail s = record s { state = failed }

  -- The handshake is over: `send` and `recv` are the two ciphers.
  abbrev pub establish : ℕ → lib.Handshake → lib.Cipher → lib.Cipher → NoiseSession → NoiseSession
  establish now hs send recv s = record s {
    hs = hs;
    cs_send = some send;
    cs_recv = some recv;
    remote_key = lib.remote_static hs;
    state = transport;
    session_start = now;
  }

  abbrev pub written :
      ℕ
      → NoiseSession
      → Option (lib.Handshake × Bytes × Option (lib.Cipher × lib.Cipher))
      → NoiseSession × Option Bytes
  written now s none = (fail s, none)
  written now s (some (hs, buf, none)) = (record s { hs = hs }, some buf)
  written now s (some (hs, buf, some (first, second))) = (establish now hs first second s, some buf)

  unfoldable pub write_handshake_message : ℕ → Bytes → NoiseSession → NoiseSession × Option Bytes
  write_handshake_message now payload s = elim s.state [
    | failed ↦ (s, none)
    | handshake ↦ written now s (lib.write_message s.hs payload)
    | transport ↦ written now s (lib.write_message s.hs payload)
  ]

  -- The last read gives the ciphers the other way round, and no answer to send.
  abbrev pub read_in :
      ℕ
      → NoiseSession
      → Option (lib.Handshake × Bytes × Option (lib.Cipher × lib.Cipher))
      → NoiseSession × Option Bytes
  read_in now s none = (fail s, none)
  read_in now s (some (hs, buf, none)) = (record s { hs = hs }, some buf)
  read_in now s (some (hs, buf, some (first, second))) = (establish now hs second first s, some [])

  unfoldable pub read_handshake_message : ℕ → Bytes → NoiseSession → NoiseSession × Option Bytes
  read_handshake_message now xs s = elim s.state [
    | failed ↦ (s, none)
    | handshake ↦ read_in now s (lib.read_message s.hs xs)
    | transport ↦ read_in now s (lib.read_message s.hs xs)
  ]

  abbrev pub rekeyed : Option lib.Cipher → Option lib.Cipher
  rekeyed none = none
  rekeyed (some c) = some (lib.rekey c)

  -- Whether `_maybe_rekey` rekeys at `now`.
  abbrev pub rekey_due : ℕ → NoiseSession → Bool
  rekey_due now s =
      leb noise_rekey_time_ms (now - s.session_start)
      || leb noise_rekey_msg_limit_session s.msg_count

  -- `now'` is the second read of the clock.
  unfoldable pub maybe_rekey : ℕ → ℕ → NoiseSession → NoiseSession
  maybe_rekey now now' s =
      if rekey_due now s
      then record s {
        cs_send = rekeyed s.cs_send;
        cs_recv = rekeyed s.cs_recv;
        send_nonce = 0;
        msg_count = 0;
        session_start = now';
      }
      else s

  -- The message under the nonce of the session; `none` is the struct.error of the nonce.
  unfoldable pub send_with : lib.Cipher → Bytes → NoiseSession → NoiseSession × Option Bytes
  send_with c plaintext s =
      let (c', ct) = lib.encrypt_with_ad (lib.set_nonce s.send_nonce c) [] plaintext in
      let s' : NoiseSession = record s {
        cs_send = some c';
        send_nonce = s.send_nonce + 1;
        msg_count = s.msg_count + 1;
      } in
      (s', (do nonce ← pack 4 s.send_nonce; some (nonce ++ ct)))

  unfoldable pub send_now : Bytes → NoiseSession → NoiseSession × Option Bytes
  unfolding send_with
  send_now plaintext s = elim s.cs_send [ none ↦ (s, none) | some c ↦ send_with c plaintext s ]

  unfoldable pub encrypt : ℕ → ℕ → Bytes → NoiseSession → NoiseSession × Option Bytes
  unfolding maybe_rekey send_now
  encrypt now now' plaintext s = elim s.state [
    | handshake ↦ (s, none)
    | failed ↦ (s, none)
    | transport ↦ elim s.cs_send [
      | none ↦ (s, none)
      | some c ↦
          if ltb nonce_max s.send_nonce
          then (s, none)
          else send_now plaintext (maybe_rekey now now' s)
    ]
  ]

  -- A message that cannot be decrypted leaves the cipher with the nonce of the message.
  unfoldable pub decrypt_with : lib.Cipher → Bytes → NoiseSession → NoiseSession × Option Bytes
  decrypt_with c wire s =
      let at_nonce = lib.set_nonce (from_be (slice wire 0 4)) c in
      elim (lib.decrypt_with_ad at_nonce [] (drop 4 wire)) [
        | none ↦ (record s { cs_recv = some at_nonce }, none)
        | some (c', plaintext) ↦ (record s { cs_recv = some c' }, some plaintext)
      ]

  unfoldable pub decrypt : Bytes → NoiseSession → NoiseSession × Option Bytes
  unfolding decrypt_with
  decrypt wire s = elim s.state [
    | handshake ↦ (s, none)
    | failed ↦ (s, none)
    | transport ↦ elim s.cs_recv [
      | none ↦ (s, none)
      | some c ↦ if ltb (length wire) 20 then (s, none) else decrypt_with c wire s
    ]
  ]
