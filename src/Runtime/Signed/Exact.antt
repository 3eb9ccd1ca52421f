-- ===== src/Runtime/Signed/Exact.antt =====
-- runtime/ExpressionEvaluator.cpp: `checkedSigned` against the arithmetic of the integers.
use embx.Prelude.{
  ℕ, zero, suc, ◌+◌, ◌-◌, ◌*◌, ◌/◌, ◌^◌, ◌≡◌, refl, arith, Bool, true, false, not, ◌&&◌, ltb, ◌∙◌,
  if◌then◌else◌,
}
use native.Mathlib.Nat.{mul_comm}
use embx.Prelude.Div.{ltb-div}
use embx.Prelude.Int.{ℤ, pos, negsuc, ◌+ℤ◌, ◌-ℤ◌, ◌*ℤ◌, ltb_ℤ, sub_ℕ}
use embx.Prelude.Result.{Result, ok, err}
use embx.Runtime.Signed.{
  int64_max, int64_min, minus, eq_ℤ, add_signed, sub_signed, mul_overflows, mul_signed,
  checked_signed,
}

abbrev pub fits : ℤ → Bool
fits z = not (ltb_ℤ z int64_min) && not (ltb_ℤ int64_max z)

abbrev pub exact : ℤ → Result ℤ
exact z = if fits z then ok z else err "integer overflow"

add_signed-eq : (a b : ℤ) → fits a ≡ true → fits b ≡ true → add_signed a b ≡ exact (a +ℤ b)
unfolding add_signed ◌+ℤ◌ ◌-ℤ◌
add_signed-eq (pos a) (pos b) h k = ground arith
add_signed-eq (pos a) (negsuc b) h k = ground arith
add_signed-eq (negsuc a) (pos b) h k = ground arith
add_signed-eq (negsuc a) (negsuc b) h k = ground arith

sub_signed-eq : (a b : ℤ) → fits a ≡ true → fits b ≡ true → sub_signed a b ≡ exact (a -ℤ b)
unfolding sub_signed ◌+ℤ◌ ◌-ℤ◌
sub_signed-eq (pos a) (pos b) h k = ground arith
sub_signed-eq (pos a) (negsuc b) h k = ground arith
sub_signed-eq (negsuc a) (pos b) h k = ground arith
sub_signed-eq (negsuc a) (negsuc b) h k = ground arith

ltb-minus : (n q : ℕ) → ltb_ℤ (negsuc n) (minus q) ≡ ltb q (suc n)
ltb-minus n zero = ground arith
ltb-minus n (suc q) = ground arith

mul-pos_pos : (a b : ℕ) → pos a *ℤ pos b ≡ pos (a * b)
unfolding ◌*ℤ◌
mul-pos_pos a b = ground arith

sub-minus : (y m n : ℕ) → y ≡ 0 → m ≡ n → sub_ℕ y m ≡ minus n
sub-minus y m zero h k = ground arith
sub-minus y m (suc n) h k = ground arith

ltb_pos : (a b : ℕ) → ltb_ℤ (pos a) (pos b) ≡ ltb a b
ltb_pos a b = ground arith

pos_test : (a : ℕ) → ltb_ℤ (pos 0) (pos (suc a)) ≡ true
pos_test a = ground arith

neg_test : (a : ℕ) → ltb_ℤ (pos 0) (negsuc a) ≡ false
neg_test a = ground arith

mul-pos_neg : (a b : ℕ) → pos a *ℤ negsuc b ≡ minus (a * suc b)
unfolding ◌*ℤ◌
mul-pos_neg a b =
    sub-minus (a * 0 + 0 * suc b) (a * suc b + 0) (a * suc b) (omega arith) (omega arith)

mul-neg_pos : (a b : ℕ) → negsuc a *ℤ pos b ≡ minus (b * suc a)
unfolding ◌*ℤ◌
mul-neg_pos a b =
    sub-minus (0 * b + suc a * 0) (0 + suc a * b) (b * suc a) (omega arith) (omega arith)

mul-neg_neg : (a b : ℕ) → negsuc a *ℤ negsuc b ≡ pos (suc a * suc b)
unfolding ◌*ℤ◌
mul-neg_neg a b = ground arith

pos_pos_overflows :
    (a b : ℕ) → mul_overflows (pos (suc a)) (pos (suc b)) ≡ ltb (2 ^ 63 - 1) (suc a * suc b)
unfolding mul_overflows
pos_pos_overflows a b =
    rw (pos_test a, pos_test b)
      (ltb_pos ((2 ^ 63 - 1) / suc b) (suc a) ∙ ltb-div (2 ^ 63 - 1) b (suc a))

pos_neg_overflows :
    (a b : ℕ) → mul_overflows (pos (suc a)) (negsuc b) ≡ ltb (2 ^ 63) (suc b * suc a)
unfolding mul_overflows
pos_neg_overflows a b =
    rw (pos_test a, neg_test b) (ltb-minus b (2 ^ 63 / suc a) ∙ ltb-div (2 ^ 63) a (suc b))

neg_pos_overflows :
    (a b : ℕ) → mul_overflows (negsuc a) (pos (suc b)) ≡ ltb (2 ^ 63) (suc a * suc b)
unfolding mul_overflows
neg_pos_overflows a b =
    rw (neg_test a, pos_test b) (ltb-minus a (2 ^ 63 / suc b) ∙ ltb-div (2 ^ 63) b (suc a))

neg_neg_overflows :
    (a b : ℕ) → mul_overflows (negsuc a) (negsuc b) ≡ ltb (2 ^ 63 - 1) (suc a * suc b)
unfolding mul_overflows
neg_neg_overflows a b =
    rw (neg_test a, neg_test b)
      (ltb-minus a ((2 ^ 63 - 1) / suc b) ∙ ltb-div (2 ^ 63 - 1) b (suc a))

exact-pos :
    (n : ℕ) → exact (pos n) ≡ (if ltb (2 ^ 63 - 1) n then err "integer overflow" else ok (pos n))
exact-pos n = ground arith

exact-minus :
    (n : ℕ) → exact (minus n) ≡ (if ltb (2 ^ 63) n then err "integer overflow" else ok (minus n))
exact-minus zero = ground arith
exact-minus (suc n) = ground arith

-- The factors' tests against 0 and -1 all fail.
IsLarge : ℤ → Type 0
IsLarge a = (eq_ℤ a (pos 0) ≡ false) × (eq_ℤ a (negsuc 0) ≡ false)

mul_large :
    (a b p : ℤ) (o : Bool)
    → IsLarge a
    → IsLarge b
    → mul_overflows a b ≡ o
    → a *ℤ b ≡ p
    → exact p ≡ (if o then err "integer overflow" else ok p)
    → mul_signed a b ≡ exact (a *ℤ b)
unfolding mul_signed IsLarge
mul_large a b p o (az, am) (bz, bm) e m h = rw (az, bz, am, bm, e, m, h) refl

pos-IsLarge : (a : ℕ) → IsLarge (pos (suc a))
unfolding IsLarge
pos-IsLarge a = (ground arith, ground arith)

neg-IsLarge : (a : ℕ) → IsLarge (negsuc (suc a))
unfolding IsLarge
neg-IsLarge a = (ground arith, ground arith)

mul_zero_right : (a : ℤ) → mul_signed a (pos 0) ≡ exact (a *ℤ pos 0)
unfolding mul_signed ◌*ℤ◌
mul_zero_right (pos a) = ground arith
mul_zero_right (negsuc a) = ground arith

mul_minus_right : (a : ℤ) → fits a ≡ true → mul_signed a (negsuc 0) ≡ exact (a *ℤ negsuc 0)
unfolding mul_signed ◌*ℤ◌
mul_minus_right (pos a) h = ground arith
mul_minus_right (negsuc a) h = ground arith

mul_zero_left : (b : ℤ) → mul_signed (pos 0) b ≡ exact (pos 0 *ℤ b)
unfolding mul_signed ◌*ℤ◌
mul_zero_left (pos b) = ground arith
mul_zero_left (negsuc b) = ground arith

mul_minus_left : (b : ℤ) → fits b ≡ true → mul_signed (negsuc 0) b ≡ exact (negsuc 0 *ℤ b)
unfolding mul_signed ◌*ℤ◌
mul_minus_left (pos b) h = ground arith
mul_minus_left (negsuc b) h = ground arith

mul_signed-eq : (a b : ℤ) → fits a ≡ true → fits b ≡ true → mul_signed a b ≡ exact (a *ℤ b)
mul_signed-eq (pos zero) b h k = mul_zero_left b
mul_signed-eq (negsuc zero) b h k = mul_minus_left b k
mul_signed-eq (pos (suc a)) (pos zero) h k = mul_zero_right (pos (suc a))
mul_signed-eq (negsuc (suc a)) (pos zero) h k = mul_zero_right (negsuc (suc a))
mul_signed-eq (pos (suc a)) (negsuc zero) h k = mul_minus_right (pos (suc a)) h
mul_signed-eq (negsuc (suc a)) (negsuc zero) h k = mul_minus_right (negsuc (suc a)) h
mul_signed-eq (pos (suc a)) (pos (suc b)) h k =
    mul_large _ _ _ _ (pos-IsLarge a) (pos-IsLarge b) (pos_pos_overflows a b)
      (mul-pos_pos (suc a) (suc b)) (exact-pos (suc a * suc b))
mul_signed-eq (pos (suc a)) (negsuc (suc b)) h k =
    mul_large _ _ _ _ (pos-IsLarge a) (neg-IsLarge b) (pos_neg_overflows a (suc b))
      (mul-pos_neg (suc a) (suc b))
      (rw (mul_comm (suc (suc b)) (suc a)) (exact-minus (suc a * suc (suc b))))
mul_signed-eq (negsuc (suc a)) (pos (suc b)) h k =
    mul_large _ _ _ _ (neg-IsLarge a) (pos-IsLarge b) (neg_pos_overflows (suc a) b)
      (mul-neg_pos (suc a) (suc b))
      (rw (mul_comm (suc (suc a)) (suc b)) (exact-minus (suc b * suc (suc a))))
mul_signed-eq (negsuc (suc a)) (negsuc (suc b)) h k =
    mul_large _ _ _ _ (neg-IsLarge a) (neg-IsLarge b) (neg_neg_overflows (suc a) (suc b))
      (mul-neg_neg (suc a) (suc b)) (exact-pos (suc (suc a) * suc (suc b)))

-- On operands in the range of `int64_t` each of `+`, `-` and `*` gives the integer result when that
-- is in the range, and the message `integer overflow` when it is not.
pub checked_signed-exact :
    (a b : ℤ)
    → fits a ≡ true
    → fits b ≡ true
    → (checked_signed a b "+" ≡ exact (a +ℤ b))
      × (checked_signed a b "-" ≡ exact (a -ℤ b))
      × (checked_signed a b "*" ≡ exact (a *ℤ b))
unfolding checked_signed
checked_signed-exact a b h k = (add_signed-eq a b h k, sub_signed-eq a b h k, mul_signed-eq a b h k)
