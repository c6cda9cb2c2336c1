-- ===== src/Prelude/Options.antt =====
-- `Option` as the result of code that returns `None` or raises where every exception is caught.
use mathlib.Core.Path.{◌≡◌, refl, subst}
use mathlib.Core.Logic.{◌⊎◌, inl, inr}
use mathlib.Core.Bool.{Bool, true, false}
use mathlib.Core.Option.{Option, none, some}

infixl 5 ◌>>=◌
abbrev pub ◌>>=◌ {ℓ κ} : {A : Type ℓ} {B : Type κ} → Option A → (A → Option B) → Option B
none >>= f = none
some a >>= f = f a

-- Goes on only where the test holds.
abbrev pub require : Bool → Option (Unit {0})
require true = some tt
require false = none

abbrev pub is_some {ℓ} : {A : Type ℓ} → Option A → Bool
is_some none = false
is_some (some a) = true

pub Option-cases {ℓ} : {A : Type ℓ} (o : Option A) → (o ≡ none) ⊎ ((a : A) × (o ≡ some a))
Option-cases none = inl refl
Option-cases (some a) = inr (a, refl)

-- What a successful chain says of its parts.
pub >>=-eq-some {ℓ κ} :
    {A : Type ℓ} {B : Type κ} (m : Option A) (f : A → Option B) {b : B}
    → (m >>= f) ≡ some b
    → (a : A) × (m ≡ some a) × (f a ≡ some b)
>>=-eq-some none f h = cc
>>=-eq-some (some a) f h = (a, refl, h)

pub require-eq-some : (t : Bool) {u : Unit {0}} → require t ≡ some u → t ≡ true
require-eq-some true h = refl
require-eq-some false h = cc

-- `P` holds of the value, if there is one.
abbrev pub IsOptional {ℓ κ} : {A : Type ℓ} → (A → Type κ) → Option A → Type κ
IsOptional P none = Unit
IsOptional P (some a) = P a

-- `P` holds of whatever the code returns. A rule for each way to build a chain.
pub record Ensures {ℓ κ} {A : Type ℓ} (P : A → Type κ) (o : Option A) : Type (ℓ ⊔ κ) where
  pub at : (a : A) → o ≡ some a → P a

module _ {ℓ κ} {B : Type ℓ} {Q : B → Type κ} where
  pub Ensures-bind {ι} :
      {A : Type ι} {m : Option A} {f : A → Option B}
      → ((a : A) → m ≡ some a → Ensures Q (f a))
      → Ensures Q (m >>= f)
  Ensures-bind {m} {f} h = record {
    at = λ b e. let (a, p, q) = >>=-eq-some m f e in (h a p).at b q;
  }

  pub Ensures-some : {b : B} → Q b → Ensures Q (some b)
  Ensures-some {b} h = record { at = λ c e. subst (λ (o : Option B). IsOptional Q o) e h }

  pub Ensures-none : Ensures Q none
  Ensures-none = record { at = λ b e. cc }

-- The first of two answers that is one.
abbrev pub or_else {ℓ} : {A : Type ℓ} → Option A → Option A → Option A
or_else none o = o
or_else (some a) o = some a
