-- ===== src/Dict/Laws.antt =====
-- How long a dictionary is after an operation.
use bit_chat_pi.Prelude.{
  =?-refl, Bool-cases, Eq, [], ap, arith, if◌then◌else◌, inl, inr, length, none, refl, some, true,
  ◌+◌, ◌=?◌, ◌∷◌, ◌≡◌,
}
use bit_chat_pi.Dict.{Dict, find_or, get, has, remove, set}

module _ {ℓ κ} {K : Type ℓ} {V : Type κ} ⦃e : Eq K⦄ where
  pub length-set :
      (k : K) (v : V) (d : Dict K V)
      → length (set k v d) ≡ (if has k d then length d else length d + 1)
  unfolding get set
  length-set k v [] = omega arith
  length-set k v ((i, w) ∷ d) = ground (arith, length-set k v d)

  -- The last value that is set stays.
  pub set-set : (k : K) (v w : V) (d : Dict K V) → set k v (set k w d) ≡ set k v d
  unfolding set
  set-set k v w [] = rw (=?-refl k) refl
  set-set k v w ((i, u) ∷ d) = elim (Bool-cases (k =? i)) [
    | inl same ↦ rw (same, same) refl
    | inr other ↦ rw (other, other) (ap (◌∷◌ (i, u)) (set-set k v w d))
  ]

  pub length-remove :
      (k : K) (d : Dict K V) → length (remove k d) + (if has k d then 1 else 0) ≡ length d
  unfolding get remove
  length-remove k [] = omega arith
  length-remove k ((i, w) ∷ d) = ground (arith, length-remove k d)

  pub find_or-none : (k : K) (v : V) (d : Dict K V) → get k d ≡ none → find_or k v d ≡ v
  find_or-none k v d e = rw (e, find_or)

  pub find_or-some : (k : K) (v w : V) (d : Dict K V) → get k d ≡ some w → find_or k v d ≡ w
  find_or-some k v w d e = rw (e, find_or)

  pub length-remove-has :
      (k : K) (d : Dict K V) → has k d ≡ true → length (remove k d) + 1 ≡ length d
  length-remove-has k d h = ground (arith, length-remove k d)

  pub find_or-get :
      (j k : K) (v : V) (d d' : Dict K V) → get j d ≡ get k d' → find_or j v d ≡ find_or k v d'
  find_or-get j k v d d' h = ap (λ o. let w : V = elim o [ none ↦ v | some w ↦ w ] in w) h
