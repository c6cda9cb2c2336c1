-- ===== src/Bytes/Cursor.antt =====
-- A decoder that walks an offset over its input sees, at each offset, what is left of it.
use bit_chat_pi.Prelude.{
  [], ap, arith, drop, drop-append, drop-drop, get_elem?, get_elem?-drop, length, length-append,
  length-drop, refl, some, take-append, ℕ, ◌++◌, ◌+◌, ◌-◌, ◌∙◌, ◌∷◌, ◌≡◌, ◌≤◌,
}
use bit_chat_pi.Bytes.{Bytes, slice}

-- `rest` is what `xs` holds from offset `o` on.
pub record At (xs : Bytes) (o : ℕ) (rest : Bytes) : Type 0 where
  pub seen : drop o xs ≡ rest
  pub inside : o ≤ length xs

pub At-start : (xs : Bytes) → At xs 0 xs
At-start xs = record { seen = refl; inside = omega arith }

module _ {xs : Bytes} {o : ℕ} (rest : Bytes) (at : At xs o rest) where
  pub length-At : length xs ≡ o + length rest
  length-At = omega (arith, length-drop o xs, ap length at.seen, at.inside)

module _ {xs : Bytes} {o : ℕ} (front rest : Bytes) (at : At xs o (front ++ rest)) where
  pub At-fits : o + length front ≤ length xs
  At-fits = omega (arith, length-At (front ++ rest) at, length-append front rest)

  -- What the slice over `front` reads, and where the cursor stands behind it.
  pub At-slice : (p : ℕ) → o + length front ≡ p → slice xs o p ≡ front
  At-slice p e = rw at.seen (take-append (p - o) front rest (omega arith))

  pub At-next : (p : ℕ) → o + length front ≡ p → At xs p rest
  At-next p e = record {
    seen =
        rw (← drop-drop o (length front) p xs e, at.seen)
          (drop-append (length front) front rest refl);
    inside = omega (arith, At-fits);
  }

-- One byte.
module _ {xs : Bytes} {o b : ℕ} (rest : Bytes) (at : At xs o (b ∷ rest)) where
  pub At-get : get_elem? xs o ≡ some b
  At-get = get_elem?-drop o xs ∙ rw at.seen refl

  pub At-step : At xs (o + 1) rest
  At-step = At-next (b ∷ []) rest at (o + 1) refl
