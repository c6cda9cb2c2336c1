-- ===== src/Tests/Noise.antt =====
-- Two sessions over a cipher that appends sixteen zeros.
use bit_chat_pi.Prelude.{
  List, Option, [], ap, arith, false, get_elem?, is_some, length, length-append, map, none, refl,
  replicate, some, take, take-append, true, ℕ, ◌++◌, ◌+◌, ◌-◌, ◌∷◌, ◌≡◌,
}
use bit_chat_pi.Bytes.{Bytes, pack, to_be}
use bit_chat_pi.Crypto.Noise.{
  NoiseLibrary, NoiseSession, create, encrypt, maybe_rekey, read_handshake_message, send_now,
  send_with, write_handshake_message,
}
use bit_chat_pi.Crypto.Noise.Sealing.{NoiseLaws, Sending, receive_all, send_all}
use bit_chat_pi.Crypto.Noise.Transport.{receive_all-send_all}
use bit_chat_pi.Crypto.Noise.Nonces.{
  IsSession, ReachableSession, ReachableSession-IsSession, created, encrypt_total, stepped, write,
}

-- A cipher is its key and its nonce; the handshake is over with the first message.
abbrev pub plain_library : NoiseLibrary
plain_library = record {
  Cipher = ℕ × ℕ;
  Handshake = Unit {0};
  initialize = λ initiator keypair. tt;
  write_message = λ hs payload. some (hs, payload, some ((1, 0), (2, 0)));
  read_message = λ hs xs. some (hs, [], some ((1, 0), (2, 0)));
  remote_static = λ hs. none;
  set_nonce = λ n c. (c.0, n);
  encrypt_with_ad = λ c ad plaintext. ((c.0, c.1 + 1), plaintext ++ replicate 16 0);
  decrypt_with_ad = λ c ad ct. some ((c.0, c.1 + 1), take (length ct - 16) ct);
  rekey = λ c. (c.0 + 10, c.1);
}

unfoldable pub plain_library-NoiseLaws : NoiseLaws plain_library
plain_library-NoiseLaws = record {
  Key = ℕ;
  key = λ c. c.0;
  key-set_nonce = λ n c. refl;
  key-encrypt = λ c ad plaintext. refl;
  key-decrypt = λ c d ad ct plaintext e. cc;
  decrypt-encrypt = λ c d n ad plaintext e.
      let len = length-append plaintext (replicate 16 0) in
      (
        (d.0, n + 1),
        ap (λ xs. let x : Option ((ℕ × ℕ) × Bytes) = some ((d.0, n + 1), xs) in x)
            (take-append (length (plaintext ++ replicate 16 0) - 16) plaintext (replicate 16 0)
              (omega (arith, len))),
      );
  length-encrypt = λ c ad plaintext. length-append plaintext (replicate 16 0);
}

abbrev pub initiated : NoiseSession plain_library
initiated = (write_handshake_message plain_library 5 [] (create plain_library true 0 [])).0

abbrev pub responding : NoiseSession plain_library
responding = (read_handshake_message plain_library 5 [] (create plain_library false 0 [])).0

initiated-reachable : ReachableSession plain_library initiated
initiated-reachable = stepped (created true 0 []) (write 5 [])

encrypt_total_example : is_some (encrypt plain_library 6 7 (1 ∷ []) initiated).1 ≡ true
encrypt_total_example =
    encrypt_total plain_library initiated 6 7 (1 ∷ []) initiated-reachable
      (unfold write_handshake_message in refl)

ReachableSession-IsSession_example : IsSession plain_library initiated
ReachableSession-IsSession_example = ReachableSession-IsSession plain_library initiated-reachable

abbrev call : ℕ → Bytes → Sending plain_library plain_library-NoiseLaws
call now plaintext = record { now = now; now' = now; plaintext = plaintext }

abbrev hello : List (Sending plain_library plain_library-NoiseLaws)
hello = call 6 (104 ∷ []) ∷ call 8 (105 ∷ 106 ∷ []) ∷ []

abbrev sealed : ℕ → Bytes → Bytes × Bytes
sealed n plaintext = (0 ∷ 0 ∷ 0 ∷ n ∷ (plaintext ++ replicate 16 0), plaintext)

-- The second message comes first, and twice.
abbrev arrived : List (Bytes × Bytes)
arrived = sealed 1 (105 ∷ 106 ∷ []) ∷ sealed 0 (104 ∷ []) ∷ sealed 1 (105 ∷ 106 ∷ []) ∷ []

initiated-hello :
    send_all plain_library plain_library-NoiseLaws hello initiated
    ≡ sealed 0 (104 ∷ []) ∷ sealed 1 (105 ∷ 106 ∷ []) ∷ []
unfolding send_all write_handshake_message encrypt maybe_rekey send_now send_with pack to_be
initiated-hello = refl

receive_all-send_all_example :
    (length (send_all plain_library plain_library-NoiseLaws hello initiated) ≡ 2)
    × (receive_all plain_library plain_library-NoiseLaws (map (λ m. m.0) arrived) responding
        ≡ map (λ m. some m.1) arrived)
unfolding write_handshake_message read_handshake_message plain_library-NoiseLaws
receive_all-send_all_example =
    receive_all-send_all plain_library plain_library-NoiseLaws 1 initiated responding hello arrived
      (record { state = refl; cipher = (1, 0); has = refl; under = refl })
      (record { state = refl; cipher = (1, 0); has = refl; under = refl })
      ((omega arith, (omega arith, tt)), omega arith, omega arith)
      (
        (1, ap (λ ms. get_elem? ms 1) initiated-hello),
        (
          (0, ap (λ ms. get_elem? ms 0) initiated-hello),
          ((1, ap (λ ms. get_elem? ms 1) initiated-hello), tt),
        ),
      )
