-- ===== src/Dict/Select.antt =====
-- The entries whose values pass a test: taken out by their keys, and what is left.
use bit_chat_pi.Prelude.{
  =?-refl, Bool, Bool-cases, Eq, List, Option, [], ap, arith, false, if◌then◌else◌, inl, inr, none,
  not, refl, some, subst, sym, ◌=?◌, ◌∙◌, ◌∷◌, ◌≡◌,
}
use bit_chat_pi.Dict.{Dict, get, remove}
use bit_chat_pi.Dict.Keys.{Fresh, Fresh-cons, IsDict}

module _ {ℓ κ} {K : Type ℓ} {V : Type κ} where
  -- `[k for k, v in d.items() if test(v)]`
  abbrev pub keys_where : (V → Bool) → Dict K V → List K
  keys_where test [] = []
  keys_where test ((k, v) ∷ d) = if test v then k ∷ keys_where test d else keys_where test d

  abbrev pub entries_where : (V → Bool) → Dict K V → Dict K V
  entries_where test [] = []
  entries_where test ((k, v) ∷ d) =
      if test v then (k, v) ∷ entries_where test d else entries_where test d

  -- Equivalent tests.
  pub entries_where-ext :
      (s t : V → Bool) (d : Dict K V)
      → ((v : V) → s v ≡ t v)
      → entries_where s d ≡ entries_where t d
  entries_where-ext s t [] h = refl
  entries_where-ext s t ((k, v) ∷ d) h = rw (h v, entries_where-ext s t d h) refl

-- The value if it passes the test.
abbrev pub passing {ℓ} : {V : Type ℓ} → (V → Bool) → Option V → Option V
passing test none = none
passing test (some v) = if test v then some v else none

module _ {ℓ κ} {K : Type ℓ} {V : Type κ} ⦃e : Eq K⦄ where
  -- `for k in keys: d.pop(k, None)`
  abbrev pub pop_all : List K → Dict K V → Dict K V
  pop_all [] d = d
  pop_all (k ∷ ks) d = pop_all ks (remove k d)

  remove-apart :
      (j k : K) (v : V) (d : Dict K V)
      → (k =? j) ≡ false
      → remove j ((k, v) ∷ d) ≡ (k, v) ∷ remove j d
  unfolding remove
  remove-apart j k v d other = ground (arith, e.beq_iff k j, e.beq_iff j k)

  remove-first : (k : K) (v : V) (d : Dict K V) → remove k ((k, v) ∷ d) ≡ d
  unfolding remove
  remove-first k v d = rw (=?-refl k) refl

  module _ (test : V → Bool) where
    pop_all-apart :
        (k : K) (v : V) (d rest : Dict K V)
        → Fresh k d
        → pop_all (keys_where test d) ((k, v) ∷ rest) ≡ (k, v) ∷ pop_all (keys_where test d) rest
    pop_all-apart k v [] rest fresh = refl
    pop_all-apart k v ((j, w) ∷ d) rest fresh =
        let (other, fresh') = Fresh-cons k j w d fresh in
        elim (Bool-cases (test w)) [
          | inl t ↦ rw t (
              ap (pop_all (keys_where test d)) (remove-apart j k v rest other)
              ∙ pop_all-apart k v d (remove j rest) fresh')
          | inr f ↦ rw f (pop_all-apart k v d rest fresh')
        ]

    -- What is left are the entries that fail the test, in their order.
    pub pop_all-keys_where :
        (d : Dict K V)
        → IsDict d
        → pop_all (keys_where test d) d ≡ entries_where (λ v. not (test v)) d
    pop_all-keys_where [] h = refl
    pop_all-keys_where ((k, v) ∷ d) h = elim (Bool-cases (test v)) [
      | inl t ↦
          rw t (ap (pop_all (keys_where test d)) (remove-first k v d) ∙ pop_all-keys_where d h.1)
      | inr f ↦ rw f (pop_all-apart k v d d h.0 ∙ ap (◌∷◌ (k, v)) (pop_all-keys_where d h.1))
    ]

  Fresh-entries_where :
      (test : V → Bool) (k : K) (d : Dict K V) → Fresh k d → Fresh k (entries_where test d)
  unfolding get
  Fresh-entries_where test k [] h = refl
  Fresh-entries_where test k ((j, v) ∷ d) h =
      let (other, fresh) = Fresh-cons k j v d h in
      elim (Bool-cases (test v)) [
        | inl t ↦ rw (t, other) (Fresh-entries_where test k d fresh)
        | inr f ↦ rw f (Fresh-entries_where test k d fresh)
      ]

  pub get-entries_where :
      (test : V → Bool) (k : K) (d : Dict K V)
      → IsDict d
      → get k (entries_where test d) ≡ passing test (get k d)
  unfolding get
  get-entries_where test k [] h = refl
  get-entries_where test k ((j, v) ∷ d) h = elim (Bool-cases (k =? j)) [
    | inl same ↦ elim (Bool-cases (test v)) [
      | inl t ↦ rw (t, same, t) refl
      | inr f ↦
          let eq : k ≡ j = (e.beq_iff k j).0 same in
          rw (f, same, f) (Fresh-entries_where test k d (subst (λ i. Fresh i d) (sym eq) h.0))
    ]
    | inr other ↦ elim (Bool-cases (test v)) [
      | inl t ↦ rw (t, other) (get-entries_where test k d h.1)
      | inr f ↦ rw (f, other) (get-entries_where test k d h.1)
    ]
  ]

  pub entries_where-IsDict :
      (test : V → Bool) (d : Dict K V) → IsDict d → IsDict (entries_where test d)
  entries_where-IsDict test [] h = tt
  entries_where-IsDict test ((k, v) ∷ d) h = elim (Bool-cases (test v)) [
    | inl t ↦ rw t (Fresh-entries_where test k d h.0, entries_where-IsDict test d h.1)
    | inr f ↦ rw f (entries_where-IsDict test d h.1)
  ]
