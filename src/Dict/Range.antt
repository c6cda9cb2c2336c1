-- ===== src/Dict/Range.antt =====
-- Dictionaries with keys below a number: how many entries they have, and when no key is missing.
use bit_chat_pi.Prelude.{
  Bool-cases, [], ap, arith, inl, inr, is_some, length, subst, suc, sym, true, zero, ℕ, ◌<◌, ◌==◌,
  ◌∙◌, ◌∷◌, ◌≡◌, ◌≤◌, nat_eq,
}
use bit_chat_pi.Dict.{Dict, get, has, remove, set}
use bit_chat_pi.Dict.Keys.{Fresh, Fresh-has, IsDict, get-remove_ne, remove-IsDict}
use bit_chat_pi.Dict.Laws.{length-remove, length-remove-has}

module _ {κ} {V : Type κ} where
  abbrev pub AllBelow : ℕ → Dict ℕ V → Type 0
  AllBelow n [] = Unit
  AllBelow n ((j, v) ∷ d) = (j < n) × AllBelow n d

  AllBelow-Fresh : (n : ℕ) (d : Dict ℕ V) → Fresh n d → AllBelow (suc n) d → AllBelow n d
  unfolding get
  AllBelow-Fresh n [] fresh h = tt
  AllBelow-Fresh n ((j, v) ∷ d) fresh h = ground (arith, AllBelow-Fresh n d)

  AllBelow-remove : (n : ℕ) (d : Dict ℕ V) → IsDict d → AllBelow (suc n) d → AllBelow n (remove n d)
  unfolding remove
  AllBelow-remove n [] i h = tt
  AllBelow-remove n ((j, v) ∷ d) i h = elim (Bool-cases (n == j)) [
    | inl same ↦
        let e : n ≡ j = ground arith in
        rw same (AllBelow-Fresh n d (subst (λ k. Fresh k d) (sym e) i.0) h.1)
    | inr other ↦ rw other (ground arith, AllBelow-remove n d i.1 h.1)
  ]

  pub AllBelow-set :
      (n i : ℕ) (v : V) (d : Dict ℕ V) → i < n → AllBelow n d → AllBelow n (set i v d)
  unfolding set
  AllBelow-set n i v [] below h = (below, tt)
  AllBelow-set n i v ((j, w) ∷ d) below h = ground (arith, AllBelow-set n i v d)

  pub AllBelow-length : (n : ℕ) (d : Dict ℕ V) → IsDict d → AllBelow n d → length d ≤ n
  AllBelow-length zero [] i h = omega arith
  AllBelow-length zero ((j, v) ∷ d) i h = absurd (omega (arith, h.0))
  AllBelow-length (suc n) d i h =
      let less = AllBelow-length n (remove n d) (remove-IsDict n d i) (AllBelow-remove n d i h) in
      ground (arith, less, length-remove n d)

  -- As many entries as keys there can be: none is missing.
  pub AllBelow-full :
      (n : ℕ) (d : Dict ℕ V) (i : ℕ)
      → IsDict d
      → AllBelow n d
      → length d ≡ n
      → i < n
      → has i d ≡ true
  AllBelow-full zero d i distinct h full below = absurd (omega arith)
  AllBelow-full (suc n) d i distinct h full below = elim (Bool-cases (has n d)) [
    | inr gone ↦ absurd (
        let few = AllBelow-length n d distinct (AllBelow-Fresh n d (Fresh-has n d gone) h) in
        omega (arith, few, full))
    | inl there ↦ elim (Bool-cases (i == n)) [
      | inl same ↦ let e : i ≡ n = ground arith in subst (λ k. has k d ≡ true) (sym e) there
      | inr other ↦
          let ih =
            AllBelow-full n (remove n d) i (remove-IsDict n d distinct)
              (AllBelow-remove n d distinct h) (omega (arith, full, length-remove-has n d there))
              (ground arith) in
          ap is_some (sym (get-remove_ne n i d other)) ∙ ih
    ]
  ]

  -- No key is missing: as many entries as keys.
  pub length-full : (n : ℕ) (d : Dict ℕ V) → ((i : ℕ) → i < n → has i d ≡ true) → n ≤ length d
  length-full zero d h = omega arith
  length-full (suc n) d h =
      let there = h n (omega arith) in
      let ih =
        length-full n (remove n d)
          (λ i below. ap is_some (get-remove_ne n i d (ground arith)) ∙ h i (omega arith)) in
      omega (arith, ih, length-remove-has n d there)
