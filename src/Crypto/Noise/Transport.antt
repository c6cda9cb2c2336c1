-- ===== src/Crypto/Noise/Transport.antt =====
-- Messages of a session: encrypted by one end, decrypted by the other, in any order.
use bit_chat_pi.Prelude.{
  All, All-get_elem?, List, [], ap, get_elem?, length, map, refl, some, subst, suc, sym, ℕ, ◌∷◌,
  ◌≡◌,
}
use bit_chat_pi.Bytes.{Bytes}
use bit_chat_pi.Crypto.Noise.{NoiseLibrary, NoiseSession, decrypt, encrypt}
use bit_chat_pi.Crypto.Noise.Sealing.{
  InEpoch, NoiseLaws, Receives, Sealed, Sending, Sends, decrypt-Sealed, encrypt-Sealed, receive_all,
  send_all, with_text,
}

module _ (lib : NoiseLibrary) (laws : NoiseLaws lib) where
  abbrev AllSealed : laws.Key → List (Bytes × Bytes) → Type 0
  AllSealed k = All (λ m. Sealed lib laws k m.0 m.1)

  send_all-AllSealed :
      (k : laws.Key) (cs : List (Sending lib laws)) (s : NoiseSession lib)
      → Sends lib laws k s
      → InEpoch lib laws cs s
      → AllSealed k (send_all lib laws cs s) × (length (send_all lib laws cs s) ≡ length cs)
  unfolding send_all
  send_all-AllSealed k [] s sc epoch = (tt, refl)
  send_all-AllSealed k (c ∷ cs) s sc epoch =
      let (w, e, sealed, sc', epoch') = encrypt-Sealed lib laws k s c cs sc epoch in
      let s' = (encrypt lib c.now c.now' c.plaintext s).0 in
      let (rest, len) = send_all-AllSealed k cs s' sc' epoch' in
      subst
        (λ o.
          AllSealed k (with_text o c.plaintext (send_all lib laws cs s'))
          × (length (with_text o c.plaintext (send_all lib laws cs s')) ≡ suc (length cs)))
        (sym e) ((sealed, rest), ap suc len)

  receive_all_sealed :
      (k : laws.Key) (ms : List (Bytes × Bytes)) (r : NoiseSession lib)
      → Receives lib laws k r
      → AllSealed k ms
      → receive_all lib laws (map (λ m. m.0) ms) r ≡ map (λ m. some m.1) ms
  unfolding receive_all
  receive_all_sealed k [] r rc h = refl
  receive_all_sealed k (m ∷ ms) r rc (sealed, h) =
      let (e, rc') = decrypt-Sealed lib laws k r m.0 m.1 rc sealed in
      rw (e, receive_all_sealed k ms (decrypt lib m.0 r).0 rc' h) refl

  -- The message is one of those that were sent.
  abbrev pub SentIn : List (Bytes × Bytes) → Bytes × Bytes → Type 0
  SentIn sent m = (i : ℕ) × (get_elem? sent i ≡ some m)

  drawn-AllSealed :
      (k : laws.Key) (sent ms : List (Bytes × Bytes))
      → AllSealed k sent
      → All (SentIn sent) ms
      → AllSealed k ms
  drawn-AllSealed k sent [] h drawn = tt
  drawn-AllSealed k sent (m ∷ ms) h ((i, at), drawn) = (
    All-get_elem? (λ x. Sealed lib laws k x.0 x.1) sent i h at,
    drawn-AllSealed k sent ms h drawn,
  )

  -- Every call of `encrypt` gives a message as long as no rekeying falls due, and the other end
  -- decrypts the messages in any order, some of them perhaps lost or repeated, to their texts.
  pub receive_all-send_all :
      (k : laws.Key) (s r : NoiseSession lib) (cs : List (Sending lib laws))
      (arrivals : List (Bytes × Bytes))
      → Sends lib laws k s
      → Receives lib laws k r
      → InEpoch lib laws cs s
      → All (SentIn (send_all lib laws cs s)) arrivals
      → (length (send_all lib laws cs s) ≡ length cs)
        × (receive_all lib laws (map (λ m. m.0) arrivals) r ≡ map (λ m. some m.1) arrivals)
  receive_all-send_all k s r cs arrivals sc rc epoch drawn =
      let (sealed, len) = send_all-AllSealed k cs s sc epoch in
      (
        len,
        receive_all_sealed k arrivals r rc
            (drawn-AllSealed k (send_all lib laws cs s) arrivals sealed drawn),
      )
