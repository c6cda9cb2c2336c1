-- ===== src/Dict/Popped.antt =====
-- A dictionary from which the keys of a list are popped, one after the other.
use bit_chat_pi.Prelude.{
  Bool, Bool-cases, Eq, List, [], ap, false, if◌then◌else◌, inl, inr, none, refl, ◌=?◌, ◌||◌, ◌∙◌,
  ◌∷◌, ◌≡◌,
}
use bit_chat_pi.Dict.{Dict, get, remove}
use bit_chat_pi.Dict.Keys.{Fresh-remove, IsDict, get-remove_ne, get-remove_self, remove-IsDict}
use bit_chat_pi.Dict.Select.{pop_all}

module _ {ℓ} {K : Type ℓ} ⦃e : Eq K⦄ where
  abbrev pub is_listed : K → List K → Bool
  is_listed k [] = false
  is_listed k (j ∷ js) = k =? j || is_listed k js

  abbrev pub Distinct : List K → Type 0
  Distinct [] = Unit
  Distinct (k ∷ ks) = (is_listed k ks ≡ false) × Distinct ks

module _ {ℓ κ} {K : Type ℓ} {V : Type κ} ⦃e : Eq K⦄ where
  get-pop_all-none :
      (j : K) (ks : List K) (d : Dict K V) → get j d ≡ none → get j (pop_all ks d) ≡ none
  get-pop_all-none j [] d h = h
  get-pop_all-none j (k ∷ ks) d h = get-pop_all-none j ks (remove k d) (Fresh-remove k j d h)

  pub get-pop_all :
      (j : K) (ks : List K) (d : Dict K V)
      → IsDict d
      → get j (pop_all ks d) ≡ (if is_listed j ks then none else get j d)
  get-pop_all j [] d h = refl
  get-pop_all j (k ∷ ks) d h = elim (Bool-cases (j =? k)) [
    | inl same ↦
        let eq : j ≡ k = (e.beq_iff j k).0 same in
        rw same (
          get-pop_all-none j ks (remove k d)
            (ap (λ i. get i (remove k d)) eq ∙ get-remove_self k d h))
    | inr other ↦
        rw (other, get-pop_all j ks (remove k d) (remove-IsDict k d h), get-remove_ne k j d other)
          refl
  ]
