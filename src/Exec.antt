-- ===== src/Exec.antt =====
-- Methods that change an object and may raise: what was written before an exception stays written.
-- No handler tells one exception from another, so an exception is `none`.
pub mod Keeps
use bit_chat_pi.Prelude.{List, Option, [], ap, none, some, ◌∷◌, ◌≡◌}

abbrev pub Exec : Type 0 → Type 0 → Type 0
Exec S A = S → Option A × S

module _ {S A : Type 0} where
  abbrev pub pure : A → Exec S A
  pure a s = (some a, s)

  abbrev pub raise : Exec S A
  raise s = (none, s)

  -- The result of code without an effect.
  abbrev pub lift : Option A → Exec S A
  lift o s = (o, s)

  abbrev pub gets : (S → A) → Exec S A
  gets f s = (some (f s), s)

  -- `try: … except Exception`, where `none` stands for the caught exception.
  abbrev pub attempt : Exec S A → Exec S (Option A)
  attempt m s = let (r, s') = m s in (some r, s')

module _ {S : Type 0} where
  abbrev pub modify : (S → S) → Exec S (Unit {0})
  modify f s = (some tt, f s)

module _ {S A B : Type 0} where
  abbrev pub proceed : Option A → (A → Exec S B) → Exec S B
  proceed none f s = (none, s)
  proceed (some a) f s = f a s

  infixl 5 ◌>>=◌ ◌>>◌
  abbrev pub ◌>>=◌ : Exec S A → (A → Exec S B) → Exec S B
  ◌>>=◌ m f s = let (r, s') = m s in proceed r f s'

  abbrev pub ◌>>◌ : Exec S A → Exec S B → Exec S B
  m >> n = m >>= λ _. n

module _ {S A : Type 0} where
  -- A `for` loop.
  unfoldable pub for_each : List A → (A → Exec S (Unit {0})) → Exec S (Unit {0})
  for_each [] body = pure tt
  for_each (x ∷ xs) body = do body x; for_each xs body

module _ {S A B : Type 0} where
  -- What a block does after its first action.
  pub bind-eq :
      (m : Exec S A) (f : A → Exec S B) {s s' : S} {a : A}
      → m s ≡ (some a, s')
      → (m >>= f) s ≡ f a s'
  bind-eq m f e = ap (λ x. proceed x.0 f x.1) e

  pub bind-raise :
      (m : Exec S A) (f : A → Exec S B) {s s' : S} → m s ≡ (none, s') → (m >>= f) s ≡ (none, s')
  bind-raise m f e = ap (λ x. proceed x.0 f x.1) e
