-- ===== src/Exec/Keeps.antt =====
-- Predicates that hold before and after an action, also where it raises.
use bit_chat_pi.Prelude.{Bool, List, Option, [], false, if◌then◌else◌, none, some, true, ◌∷◌}
use bit_chat_pi.Exec.{Exec, attempt, for_each, gets, lift, proceed, pure, raise, ◌>>=◌}

-- `P` before gives `Q` after.
pub record Leads {S A : Type 0} (P Q : S → Type 0) (m : Exec S A) : Type 0 where
  pub at : (s : S) → P s → Q (m s).1

abbrev pub Keeps : {S A : Type 0} → (S → Type 0) → Exec S A → Type 0
Keeps P = Leads P P

module _ {S A B : Type 0} {Q R : S → Type 0} where
  proceed-Leads :
      (o : Option A) (f : A → Exec S B) (s : S)
      → ((t : S) → Q t → R t)
      → ((a : A) → Leads Q R (f a))
      → Q s
      → R (proceed o f s).1
  proceed-Leads none f s weak k h = weak s h
  proceed-Leads (some a) f s weak k h = (k a).at s h

module _ {S A B : Type 0} {P Q R : S → Type 0} where
  -- Where the first action raises, the middle predicate has to give the last.
  pub Leads-bind :
      (m : Exec S A) (f : A → Exec S B)
      → ((t : S) → Q t → R t)
      → Leads P Q m
      → ((a : A) → Leads Q R (f a))
      → Leads P R (m >>= f)
  Leads-bind m f weak h k = record {
    at = λ s p. let (r, s') = m s in proceed-Leads r f s' weak k (h.at s p);
  }

module _ {S A B : Type 0} {P : S → Type 0} where
  pub Keeps-bind :
      (m : Exec S A) (f : A → Exec S B) → Keeps P m → ((a : A) → Keeps P (f a)) → Keeps P (m >>= f)
  Keeps-bind m f h k = Leads-bind m f (λ t q. q) h k

module _ {S A : Type 0} {P : S → Type 0} where
  pub Keeps-pure : (a : A) → Keeps P (pure a)
  Keeps-pure a = record { at = λ s h. h }

  pub Keeps-raise : Keeps P (raise {S = S} {A = A})
  Keeps-raise = record { at = λ s h. h }

  pub Keeps-lift : (o : Option A) → Keeps P (lift o)
  Keeps-lift o = record { at = λ s h. h }

  pub Keeps-gets : (f : S → A) → Keeps P (gets f)
  Keeps-gets f = record { at = λ s h. h }

  pub Keeps-attempt : (m : Exec S A) → Keeps P m → Keeps P (attempt m)
  Keeps-attempt m h = record { at = λ s p. h.at s p }

  pub Keeps-if : (b : Bool) (m n : Exec S A) → Keeps P m → Keeps P n → Keeps P (if b then m else n)
  Keeps-if true m n hm hn = hm
  Keeps-if false m n hm hn = hn

module _ {S A : Type 0} {P : S → Type 0} where
  pub Keeps-for_each :
      (xs : List A) (body : A → Exec S (Unit {0}))
      → ((x : A) → Keeps P (body x))
      → Keeps P (for_each xs body)
  unfolding for_each
  Keeps-for_each [] body h = Keeps-pure tt
  Keeps-for_each (x ∷ xs) body h =
      Keeps-bind (body x) (λ _. for_each xs body) (h x) (λ _. Keeps-for_each xs body h)

pub ruleset keeps_rules = (
  Keeps-bind, Keeps-pure, Keeps-raise, Keeps-lift, Keeps-gets, Keeps-attempt, Keeps-if,
  Keeps-for_each,
)
