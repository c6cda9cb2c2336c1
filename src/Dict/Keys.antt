-- ===== src/Dict/Keys.antt =====
-- The keys of a dictionary are distinct, and stay so.
use bit_chat_pi.Prelude.{
  =?-refl, Bool-cases, Eq, Option-cases, [], ap, arith, false, inl, inr, none, refl, some, sym,
  ◌=?◌, ◌∙◌, ◌∷◌, ◌≡◌,
}
use bit_chat_pi.Dict.{Dict, get, has, remove, set}

module _ {ℓ κ} {K : Type ℓ} {V : Type κ} ⦃e : Eq K⦄ where
  -- `k` is not among the keys.
  abbrev pub Fresh : K → Dict K V → Type κ
  Fresh k d = get k d ≡ none

  abbrev pub IsDict : Dict K V → Type κ
  IsDict [] = Unit
  IsDict ((k, v) ∷ d) = Fresh k d × IsDict d

  pub get-remove_ne : (k j : K) (d : Dict K V) → (j =? k) ≡ false → get j (remove k d) ≡ get j d
  unfolding get remove
  get-remove_ne k j [] h = refl
  get-remove_ne k j ((i, v) ∷ d) h =
      ground (arith, get-remove_ne k j d h, e.beq_iff k i, e.beq_iff j i, e.beq_iff j k)

  pub get-remove_self : (k : K) (d : Dict K V) → IsDict d → get k (remove k d) ≡ none
  unfolding get remove
  get-remove_self k [] h = refl
  get-remove_self k ((i, v) ∷ d) h = ground (arith, get-remove_self k d h.1, e.beq_iff k i)

  pub Fresh-remove : (k j : K) (d : Dict K V) → Fresh j d → Fresh j (remove k d)
  unfolding get remove
  Fresh-remove k j [] h = refl
  Fresh-remove k j ((i, v) ∷ d) h = ground (arith, Fresh-remove k j d)

  pub Fresh-has : (k : K) (d : Dict K V) → has k d ≡ false → Fresh k d
  Fresh-has k d h = elim (Option-cases (get k d)) [ inl e ↦ e | inr (v, e) ↦ cc ]

  pub Fresh-cons :
      (k j : K) (v : V) (d : Dict K V) → Fresh k ((j, v) ∷ d) → ((k =? j) ≡ false) × Fresh k d
  unfolding get
  Fresh-cons k j v d h = ground arith

  pub remove_missing : (k : K) (d : Dict K V) → Fresh k d → remove k d ≡ d
  unfolding get remove
  remove_missing k [] h = refl
  remove_missing k ((j, v) ∷ d) h = ground (arith, remove_missing k d)

  pub remove-IsDict : (k : K) (d : Dict K V) → IsDict d → IsDict (remove k d)
  unfolding remove
  remove-IsDict k [] h = tt
  remove-IsDict k ((i, v) ∷ d) h = ground (arith, remove-IsDict k d h.1, Fresh-remove k i d h.0)

module _ {ℓ κ} {K : Type ℓ} {V : Type κ} ⦃e : Eq K⦄ where
  pub get-set_self : (k : K) (v : V) (d : Dict K V) → get k (set k v d) ≡ some v
  unfolding get set
  get-set_self k v [] = rw =?-refl
  get-set_self k v ((i, w) ∷ d) = ground (arith, get-set_self k v d)

  pub get-set_ne : (k j : K) (v : V) (d : Dict K V) → (j =? k) ≡ false → get j (set k v d) ≡ get j d
  unfolding get set
  get-set_ne k j v [] h = rw h
  get-set_ne k j v ((i, w) ∷ d) h =
      ground (arith, get-set_ne k j v d h, e.beq_iff k i, e.beq_iff j i, e.beq_iff j k)

  pub set-IsDict : (k : K) (v : V) (d : Dict K V) → IsDict d → IsDict (set k v d)
  unfolding set
  set-IsDict k v [] h = (unfold get in refl, tt)
  set-IsDict k v ((i, w) ∷ d) h =
      ground (arith, set-IsDict k v d h.1, get-set_ne k i v d, e.beq_iff k i, e.beq_iff i k)

  pub get-set-none : (k j : K) (v : V) (d : Dict K V) → get j (set k v d) ≡ none → get j d ≡ none
  get-set-none k j v d h = elim (Bool-cases (j =? k)) [
    | inl same ↦
        let eq : j ≡ k = (e.beq_iff j k).0 same in
        let found : some v ≡ none =
          sym (get-set_self k v d) ∙ ap (λ i. get i (set k v d)) (sym eq) ∙ h in
        cc
    | inr other ↦ sym (get-set_ne k j v d other) ∙ h
  ]

module _ {ℓ κ ι} {K : Type ℓ} {V : Type κ} {W : Type ι} ⦃e : Eq K⦄ where
  -- A dictionary whose keys are among those of another, after one key is removed from both.
  pub removed_within :
      (k j : K) (d : Dict K V) (m : Dict K W)
      → IsDict m
      → (get j d ≡ none → get j m ≡ none)
      → get j (remove k d) ≡ none
      → get j (remove k m) ≡ none
  removed_within k j d m h within gone = elim (Bool-cases (j =? k)) [
    | inl same ↦
        let eq : j ≡ k = (e.beq_iff j k).0 same in
        ap (λ i. get i (remove k m)) eq ∙ get-remove_self k m h
    | inr other ↦ Fresh-remove k j m (within (sym (get-remove_ne k j d other) ∙ gone))
  ]
