-- ===== src/Dict/News.antt =====
-- A key that is not there yet goes to the end.
use bit_chat_pi.Prelude.{=?-refl, Eq, [], arith, false, refl, ◌++◌, ◌=?◌, ◌∷◌, ◌≡◌}
use bit_chat_pi.Dict.{Dict, get, remove, set}
use bit_chat_pi.Dict.Keys.{Fresh, IsDict}

module _ {ℓ κ} {K : Type ℓ} {V : Type κ} ⦃e : Eq K⦄ where
  pub set_new : (k : K) (v : V) (d : Dict K V) → Fresh k d → set k v d ≡ d ++ ((k, v) ∷ [])
  unfolding get set
  set_new k v [] h = refl
  set_new k v ((j, w) ∷ d) h = ground (arith, set_new k v d)

  pub remove-set_new : (k : K) (v : V) (d : Dict K V) → Fresh k d → remove k (set k v d) ≡ d
  unfolding get set remove
  remove-set_new k v [] h = rw =?-refl
  remove-set_new k v ((j, w) ∷ d) h = ground (arith, remove-set_new k v d)

  Fresh-tail :
      (j k : K) (v : V) (d rest : Dict K V) → Fresh j (d ++ ((k, v) ∷ rest)) → (k =? j) ≡ false
  unfolding get
  Fresh-tail j k v [] rest h = ground (arith, e.beq_iff j k, e.beq_iff k j)
  Fresh-tail j k v ((i, w) ∷ d) rest h = ground (arith, Fresh-tail j k v d rest)

  pub Fresh-front : (k : K) (v : V) (d rest : Dict K V) → IsDict (d ++ ((k, v) ∷ rest)) → Fresh k d
  unfolding get
  Fresh-front k v [] rest h = refl
  Fresh-front k v ((j, w) ∷ d) rest h =
      ground (arith, Fresh-front k v d rest h.1, Fresh-tail j k v d rest h.0)
