-- ===== src/Runtime/Signed.antt =====
-- runtime/ExpressionEvaluator.cpp: `checkedSigned` and the division of `int64_t`, on integers.
pub mod Exact
use embx.Prelude.{
  ℕ, zero, suc, ◌+◌, ◌-◌, ◌/◌, ◌%◌, ◌^◌, String, Bool, true, false, not, ◌&&◌, ◌||◌, str_eq,
  if◌then◌else◌,
}
use embx.Prelude.Int.{ℤ, pos, negsuc, pos_part, neg_part, ◌+ℤ◌, ◌-ℤ◌, ◌*ℤ◌, ltb_ℤ}
use embx.Prelude.Result.{Result, ok, err}

abbrev pub int64_max : ℤ
int64_max = pos (2 ^ 63 - 1)

abbrev pub int64_min : ℤ
int64_min = negsuc (2 ^ 63 - 1)

abbrev pub minus : ℕ → ℤ
minus zero = pos 0
minus (suc n) = negsuc n

abbrev pub neg_ℤ : ℤ → ℤ
neg_ℤ (pos n) = minus n
neg_ℤ (negsuc n) = pos (suc n)

-- `/` and `%` of C++ on signed integers: the quotient is cut towards zero, the remainder has the sign of the
-- dividend.
abbrev pub quot : ℤ → ℤ → ℤ
quot (pos a) (pos b) = pos (a / b)
quot (pos a) (negsuc b) = minus (a / suc b)
quot (negsuc a) (pos b) = minus (suc a / b)
quot (negsuc a) (negsuc b) = pos (suc a / suc b)

abbrev pub rem : ℤ → ℤ → ℤ
rem (pos a) b = pos (a % (pos_part b + neg_part b))
rem (negsuc a) b = minus (suc a % (pos_part b + neg_part b))

abbrev pub eq_ℤ : ℤ → ℤ → Bool
eq_ℤ a b = not (ltb_ℤ a b) && not (ltb_ℤ b a)

unfoldable pub add_signed : ℤ → ℤ → Result ℤ
add_signed a b =
    if (ltb_ℤ (pos 0) b && ltb_ℤ (int64_max -ℤ b) a)
      || (ltb_ℤ b (pos 0) && ltb_ℤ a (int64_min -ℤ b))
    then err "integer overflow"
    else ok (a +ℤ b)

unfoldable pub sub_signed : ℤ → ℤ → Result ℤ
sub_signed a b =
    if (ltb_ℤ b (pos 0) && ltb_ℤ (int64_max +ℤ b) a)
      || (ltb_ℤ (pos 0) b && ltb_ℤ a (int64_min +ℤ b))
    then err "integer overflow"
    else ok (a -ℤ b)

-- The four tests of the signs, for factors that are neither 0 nor -1.
unfoldable pub mul_overflows : ℤ → ℤ → Bool
mul_overflows a b =
    if ltb_ℤ (pos 0) a
    then (if ltb_ℤ (pos 0) b then ltb_ℤ (quot int64_max b) a else ltb_ℤ b (quot int64_min a))
    else (if ltb_ℤ (pos 0) b then ltb_ℤ a (quot int64_min b) else ltb_ℤ a (quot int64_max b))

unfoldable pub mul_signed : ℤ → ℤ → Result ℤ
mul_signed a b =
    if eq_ℤ a (pos 0) || eq_ℤ b (pos 0)
    then ok (pos 0)
    else if eq_ℤ a (negsuc 0)
    then (if eq_ℤ b int64_min then err "integer overflow" else ok (neg_ℤ b))
    else if eq_ℤ b (negsuc 0)
    then (if eq_ℤ a int64_min then err "integer overflow" else ok (neg_ℤ a))
    else if mul_overflows a b
    then err "integer overflow"
    else ok (a *ℤ b)

-- `op` is the operator's one character; the last case leaves `err` as it is.
unfoldable pub checked_signed : ℤ → ℤ → String → Result ℤ
checked_signed a b op =
    if str_eq op "+"
    then add_signed a b
    else if str_eq op "-"
    then sub_signed a b
    else if str_eq op "*"
    then mul_signed a b
    else err ""
