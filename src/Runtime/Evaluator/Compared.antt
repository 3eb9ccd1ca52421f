-- ===== src/Runtime/Evaluator/Compared.antt =====
-- runtime/ExpressionEvaluator.cpp: `compareIntegers` against the order of the integers.
use embx.Prelude.{ℕ, ◌<◌, ◌≡◌, refl, arith, Bool, true, false, ltb, if◌then◌else◌}
use embx.Prelude.Int.{ℤ, pos, negsuc, ltb_ℤ}
use embx.Prelude.Result.{ok, err}
use embx.Runtime.Host.{word, to_int64, to_uint64}
use embx.Runtime.Signed.Exact.{fits}
use embx.Runtime.Evaluator.{
  Value, int, uint, dbl, boolean, Comparison, of_tests, integer_operands, compare_integers,
}

-- The integer that a value stands for, in the range of its type; no other value is one.
abbrev pub IsInteger : {F : Type 0} → Value F → ℤ → Type 0
IsInteger (int z) i = (z ≡ i) × (fits z ≡ true)
IsInteger (uint n) i = (pos n ≡ i) × (n < word)
IsInteger (dbl x) i = ⊥
IsInteger (boolean b) i = ⊥

-- One operand is signed and negative, the other unsigned.
abbrev pub is_refused : {F : Type 0} → Value F → Value F → Bool
is_refused (int z) (uint n) = ltb_ℤ z (pos 0)
is_refused (uint n) (int z) = ltb_ℤ z (pos 0)
is_refused _ _ = false

abbrev pub ordered : ℤ → ℤ → Comparison
ordered i j = of_tests (ltb_ℤ i j) (ltb_ℤ j i)

to_uint64-to_int64 : (z : ℤ) → fits z ≡ true → to_int64 (to_uint64 z) ≡ z
to_uint64-to_int64 (pos n) h = ground arith
to_uint64-to_int64 (negsuc n) h = ground arith

ltb_pos_pos : (m n : ℕ) → ltb_ℤ (pos m) (pos n) ≡ ltb m n
ltb_pos_pos m n = ground arith

module _ (F : Type 0) where
  same_signs :
      (x y : ℤ)
      → fits x ≡ true
      → fits y ≡ true
      → compare_integers {F = F} (int x) (int y) ≡ ok (ordered x y)
  unfolding compare_integers integer_operands
  same_signs x y h k = rw (to_uint64-to_int64 x h, to_uint64-to_int64 y k) refl

  no_signs : (m n : ℕ) → compare_integers {F = F} (uint m) (uint n) ≡ ok (ordered (pos m) (pos n))
  unfolding compare_integers integer_operands
  no_signs m n = rw (ltb_pos_pos m n, ltb_pos_pos n m) refl

  left_sign :
      (x : ℤ) (n : ℕ)
      → fits x ≡ true
      → compare_integers {F = F} (int x) (uint n) ≡ (
          if ltb_ℤ x (pos 0)
          then err "mixed signed/unsigned operation with negative signed operand"
          else ok (ordered x (pos n)))
  unfolding compare_integers integer_operands
  left_sign (pos m) n h = ground arith
  left_sign (negsuc m) n h = ground arith

  right_sign :
      (m : ℕ) (y : ℤ)
      → fits y ≡ true
      → compare_integers {F = F} (uint m) (int y) ≡ (
          if ltb_ℤ y (pos 0)
          then err "mixed signed/unsigned operation with negative signed operand"
          else ok (ordered (pos m) y))
  unfolding compare_integers integer_operands
  right_sign m (pos n) h = ground arith
  right_sign m (negsuc n) h = ground arith

-- On integer values in the range of their types `compareIntegers` gives the order of the integers
-- they stand for, whatever their types; it refuses exactly a negative operand next to an unsigned one.
pub compare_integers-ordered :
    {F : Type 0} (a b : Value F) (i j : ℤ)
    → IsInteger a i
    → IsInteger b j
    → compare_integers a b ≡ (
        if is_refused a b
        then err "mixed signed/unsigned operation with negative signed operand"
        else ok (ordered i j))
compare_integers-ordered (int x) (int y) i j (e, h) (f, k) = rw (← e, ← f) (same_signs _ x y h k)
compare_integers-ordered (uint m) (uint n) i j (e, h) (f, k) = rw (← e, ← f) (no_signs _ m n)
compare_integers-ordered (int x) (uint n) i j (e, h) (f, k) = rw (← e, ← f) (left_sign _ x n h)
compare_integers-ordered (uint m) (int y) i j (e, h) (f, k) = rw (← e, ← f) (right_sign _ m y k)
compare_integers-ordered (dbl x) b i j h k = absurd h
compare_integers-ordered (boolean x) b i j h k = absurd h
compare_integers-ordered (int x) (dbl y) i j h k = absurd k
compare_integers-ordered (int x) (boolean y) i j h k = absurd k
compare_integers-ordered (uint x) (dbl y) i j h k = absurd k
compare_integers-ordered (uint x) (boolean y) i j h k = absurd k
