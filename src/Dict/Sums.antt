-- ===== src/Dict/Sums.antt =====
-- Sums and properties over the values of a dictionary.
use bit_chat_pi.Prelude.{
  Bool-cases, Eq, [], arith, inl, inr, none, some, subst, ℕ, ◌+◌, ◌=?◌, ◌∷◌, ◌≡◌,
}
use bit_chat_pi.Dict.{Dict, get, remove, set}

module _ {ℓ κ} {K : Type ℓ} {V : Type κ} where
  -- `sum(f(v) for v in d.values())`
  abbrev pub sum_values : (V → ℕ) → Dict K V → ℕ
  sum_values f [] = 0
  sum_values f ((k, v) ∷ d) = f v + sum_values f d

  abbrev pub AllValues {ι} : (V → Type ι) → Dict K V → Type ι
  AllValues P [] = Unit {ι}
  AllValues P ((k, v) ∷ d) = P v × AllValues P d

module _ {ℓ κ} {K : Type ℓ} {V : Type κ} ⦃e : Eq K⦄ (f : V → ℕ) where
  pub sum-remove :
      (k : K) (d : Dict K V) (v : V)
      → get k d ≡ some v
      → sum_values f (remove k d) + f v ≡ sum_values f d
  unfolding get remove
  sum-remove k [] v h = cc
  sum-remove k ((j, w) ∷ d) v h = ground (arith, sum-remove k d v)

  pub sum-set :
      (k : K) (d : Dict K V) (v w : V)
      → get k d ≡ some v
      → sum_values f (set k w d) + f v ≡ sum_values f d + f w
  unfolding get set
  sum-set k [] v w h = cc
  sum-set k ((j, u) ∷ d) v w h = ground (arith, sum-set k d v w)

  pub sum-set_new :
      (k : K) (d : Dict K V) (w : V)
      → get k d ≡ none
      → sum_values f (set k w d) ≡ sum_values f d + f w
  unfolding get set
  sum-set_new k [] w h = omega arith
  sum-set_new k ((j, u) ∷ d) w h = ground (arith, sum-set_new k d w)

module _ {ℓ κ ι} {K : Type ℓ} {V : Type κ} ⦃e : Eq K⦄ (P : V → Type ι) where
  pub AllValues-get : (k : K) (d : Dict K V) (v : V) → AllValues P d → get k d ≡ some v → P v
  unfolding get
  AllValues-get k [] v h at = cc
  AllValues-get k ((j, w) ∷ d) v h at = elim (Bool-cases (k =? j)) [
    | inl same ↦ subst P (cc) h.0
    | inr other ↦ AllValues-get k d v h.1 cc
  ]

  pub AllValues-remove : (k : K) (d : Dict K V) → AllValues P d → AllValues P (remove k d)
  unfolding remove
  AllValues-remove k [] h = tt
  AllValues-remove k ((j, w) ∷ d) h = elim (Bool-cases (k =? j)) [
    | inl same ↦ rw same h.1
    | inr other ↦ rw other (h.0, AllValues-remove k d h.1)
  ]

  -- The entries that are not set anew suffice.
  pub AllValues-set :
      (k : K) (v : V) (d : Dict K V) → P v → AllValues P (remove k d) → AllValues P (set k v d)
  unfolding set remove
  AllValues-set k v [] new h = (new, tt)
  AllValues-set k v ((j, w) ∷ d) new h = elim (Bool-cases (k =? j)) [
    | inl same ↦ rw same (new, rw same at h)
    | inr other ↦
        let h' : P w × AllValues P (remove k d) = rw other at h in
        rw other (h'.0, AllValues-set k v d new h'.1)
  ]
