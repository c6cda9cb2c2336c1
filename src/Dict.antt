-- ===== src/Dict.antt =====
-- Python's `dict`: entries in insertion order. An assignment to a key that is there keeps its place.
-- Of a key that is there twice, which no operation makes, the first entry counts.
pub mod Laws
pub mod Keys
pub mod Sums
pub mod Select
pub mod Range
pub mod News
pub mod Popped
use bit_chat_pi.Prelude.{Bool, Eq, List, Option, [], if◌then◌else◌, is_some, none, some, ◌=?◌, ◌∷◌}

abbrev pub Dict {ℓ κ} : Type ℓ → Type κ → Type (ℓ ⊔ κ)
Dict K V = List (K × V)

module _ {ℓ κ} {K : Type ℓ} {V : Type κ} ⦃e : Eq K⦄ where
  -- `d.get(k)`
  unfoldable pub get : K → Dict K V → Option V
  get k [] = none
  get k ((j, v) ∷ d) = if k =? j then some v else get k d

  -- `d[k] = v`
  unfoldable pub set : K → V → Dict K V → Dict K V
  set k v [] = (k, v) ∷ []
  set k v ((j, w) ∷ d) = if k =? j then (j, v) ∷ d else (j, w) ∷ set k v d

  -- `d.pop(k, None)`
  unfoldable pub remove : K → Dict K V → Dict K V
  remove k [] = []
  remove k ((j, v) ∷ d) = if k =? j then d else (j, v) ∷ remove k d

  -- `k in d`
  abbrev pub has : K → Dict K V → Bool
  has k d = is_some (get k d)

  abbrev pub find_or : K → V → Dict K V → V
  find_or k v d = elim (get k d) [ none ↦ v | some w ↦ w ]

module _ {ℓ κ} {K : Type ℓ} {V : Type κ} where
  -- `list(d)`
  abbrev pub keys : Dict K V → List K
  keys [] = []
  keys ((k, v) ∷ d) = k ∷ keys d
