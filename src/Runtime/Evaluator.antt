-- ===== src/Runtime/Evaluator.antt =====
-- runtime/ExpressionEvaluator.cpp: literals, operators and the two evaluators of expressions, one
-- over names and one over the symbols' identities.
pub mod Agree
pub mod Typed
pub mod Compared
use Prim.Native.String.{len}
use text.Mathlib.Text.{starts_with}
use embx.Prelude.{
  ℕ, zero, suc, ◌+◌, ◌-◌, ◌*◌, ◌/◌, ◌%◌, ◌^◌, String, ◌+s◌, Bool, true, false, not, ◌&&◌, ◌||◌,
  Option, none, some, List, ltb, ◌==◌, str_eq, if◌then◌else◌,
}
use embx.Prelude.Int.{ℤ, pos, negsuc, ltb_ℤ}
use embx.Prelude.Map.{nat_key, text_key, lookup}
use embx.Prelude.Result.{Result, ok, err, ◌>>=◌, ◌>>◌, refuse_if}
use embx.Core.CLibrary.{Parsed, CLibrary}
use embx.Core.Symbol.{SymbolId, valid}
use embx.Core.Expr.{ExprKind, Expr, null_expr, node, has, is_hex, is_comparison, is_logical}
use embx.Runtime.Host.{to_int64, to_uint64}
use embx.Runtime.Signed.{int64_min, neg_ℤ, eq_ℤ, quot, rem, checked_signed}

-- `std::variant<int64_t, uint64_t, double, bool>`
pub data Value (F : Type 0) : Type 0 where
  int : ℤ → Value F
  uint : ℕ → Value F
  dbl : F → Value F
  boolean : Bool → Value F

-- The operands of an integer operation: two words, and whether they are unsigned.
pub record Operands : Type 0 where
  pub ua : ℕ
  pub ub : ℕ
  pub unsigned : Bool

abbrev pub operands : ℕ → ℕ → Bool → Operands
operands ua ub unsigned = record { ua = ua; ub = ub; unsigned = unsigned }

-- The results -1, 0 and 1 of `compareIntegers`; its 2 is an error.
pub data Comparison : Type 0 where
  less same greater : Comparison

abbrev pub of_tests : Bool → Bool → Comparison
of_tests l g = if l then Comparison.less else if g then Comparison.greater else Comparison.same

abbrev pub is_less : Comparison → Bool
is_less Comparison.less = true
is_less _ = false

abbrev pub is_same : Comparison → Bool
is_same Comparison.same = true
is_same _ = false

abbrev pub is_greater : Comparison → Bool
is_greater Comparison.greater = true
is_greater _ = false

abbrev pub comparison_holds : String → Comparison → Bool
comparison_holds op c =
    if str_eq op "=="
    then is_same c
    else if str_eq op "!="
    then not (is_same c)
    else if str_eq op "<"
    then is_less c
    else if str_eq op "<="
    then not (is_greater c)
    else if str_eq op ">"
    then is_greater c
    else not (is_less c)

abbrev promote : ℤ → Operands → Result Operands
promote sv o =
    refuse_if (ltb_ℤ sv (pos 0)) "mixed signed/unsigned operation with negative signed operand"
    >> ok o

module _ {F : Type 0} where
  abbrev pub is_double : Value F → Bool
  is_double (dbl _) = true
  is_double _ = false

  abbrev pub is_bool : Value F → Bool
  is_bool (boolean _) = true
  is_bool _ = false

  unfoldable pub integer_operands : Value F → Value F → Result Operands
  integer_operands (uint a) (uint b) = ok (operands a b true)
  integer_operands (int a) (int b) = ok (operands (to_uint64 a) (to_uint64 b) false)
  integer_operands (int a) (uint b) = promote a (operands (to_uint64 a) b true)
  integer_operands (uint a) (int b) = promote b (operands a (to_uint64 b) true)
  integer_operands _ _ = err "operands are not integers"

  unfoldable pub compare_integers : Value F → Value F → Result Comparison
  compare_integers a b = integer_operands a b >>= λ o. ok (
      if o.unsigned
      then of_tests (ltb o.ua o.ub) (ltb o.ub o.ua)
      else of_tests (ltb_ℤ (to_int64 o.ua) (to_int64 o.ub)) (ltb_ℤ (to_int64 o.ub) (to_int64 o.ua)))

  unfoldable pub logical : String → Value F → Value F → Result (Value F)
  logical op (boolean x) (boolean y) = ok (boolean (if str_eq op "&&" then x && y else x || y))
  logical op _ _ = err "logical operator requires boolean operands"

  unfoldable pub signed_binary : String → ℤ → ℤ → Result (Value F)
  signed_binary op x y =
      if (str_eq op "/" || str_eq op "%") && eq_ℤ y (pos 0)
      then err "division by zero"
      else if str_eq op "/" && eq_ℤ x int64_min && eq_ℤ y (negsuc 0)
      then err "integer overflow"
      else if str_eq op "%" && eq_ℤ x int64_min && eq_ℤ y (negsuc 0)
      then ok (int (pos 0))
      else if str_eq op "+" || str_eq op "-" || str_eq op "*"
      then (checked_signed x y op >>= λ z. ok (int z))
      else if str_eq op "/"
      then ok (int (quot x y))
      else if str_eq op "%"
      then ok (int (rem x y))
      else err "unsupported binary operation"

  unfoldable pub unsigned_binary : String → ℕ → ℕ → Result (Value F)
  unsigned_binary op a b =
      if (str_eq op "/" || str_eq op "%") && (b == 0)
      then err "division by zero"
      else if str_eq op "+"
      then (if ltb (2 ^ 64 - 1 - a) b then err "integer overflow" else ok (uint (a + b)))
      else if str_eq op "-"
      then (if ltb a b then err "unsigned integer underflow" else ok (uint (a - b)))
      else if str_eq op "*"
      then (if not (b == 0) && ltb ((2 ^ 64 - 1) / b) a
          then err "integer overflow"
          else ok (uint (a * b)))
      else if str_eq op "/"
      then ok (uint (a / b))
      else if str_eq op "%"
      then ok (uint (a % b))
      else err "unsupported binary operation"

  unfoldable pub integer_binary : String → Value F → Value F → Result (Value F)
  integer_binary op a b = integer_operands a b >>= λ o.
      if o.unsigned
      then unsigned_binary op o.ua o.ub
      else signed_binary op (to_int64 o.ua) (to_int64 o.ub)

  -- The end of the two overloads of `evaluateInteger`.
  unfoldable pub as_integer : Value F → Result ℤ
  as_integer (int z) = ok z
  as_integer (uint n) =
      refuse_if (ltb (2 ^ 63 - 1) n) "integer value out of signed range" >> ok (pos n)
  as_integer _ = err "expression is not an integer"

  -- The end of `evaluateSize`, with the message of the overload for other values.
  unfoldable pub as_size : String → Value F → Result ℕ
  as_size other (int z) =
      refuse_if (ltb_ℤ z (pos 0)) "size/offset cannot be negative" >> ok (to_uint64 z)
  as_size other (uint n) = ok n
  as_size other _ = err other

  module _ {L : Type 0} (c : CLibrary F L) where
    unfoldable pub as_real : Value F → L
    as_real (int z) = c.of_int z
    as_real (uint n) = c.of_int (pos n)
    as_real (dbl x) = c.widen x
    as_real (boolean b) = c.of_int (if b then pos 1 else pos 0)

    abbrev pub real_holds : String → L → L → Bool
    real_holds op x y =
        if str_eq op "=="
        then c.eq x y
        else if str_eq op "!="
        then not (c.eq x y)
        else if str_eq op "<"
        then c.lt x y
        else if str_eq op "<="
        then c.le x y
        else if str_eq op ">"
        then c.lt y x
        else c.le y x

    unfoldable pub compared : String → Value F → Value F → Result (Value F)
    compared op a b =
        if is_bool a || is_bool b
        then err "comparison operands must be numeric"
        else if is_double a || is_double b
        then ok (boolean (real_holds op (as_real a) (as_real b)))
        else (compare_integers a b >>= λ r. ok (boolean (comparison_holds op r)))

    abbrev checked_real : L → Result (Value F)
    checked_real z =
        if not (c.is_finite (c.narrow z))
        then err "floating arithmetic overflow"
        else ok (dbl (c.narrow z))

    unfoldable pub real_binary : String → L → L → Result (Value F)
    real_binary op x y =
        if (str_eq op "/" || str_eq op "%") && c.eq y (c.of_int (pos 0))
        then err "division by zero"
        else if str_eq op "+"
        then checked_real (c.add x y)
        else if str_eq op "-"
        then checked_real (c.sub x y)
        else if str_eq op "*"
        then checked_real (c.mul x y)
        else if str_eq op "/"
        then checked_real (c.div x y)
        else err "% requires integer operands"

    unfoldable pub binary : String → Value F → Value F → Result (Value F)
    binary op a b =
        if is_logical op
        then logical op a b
        else if is_comparison op
        then compared op a b
        else if is_double a || is_double b
        then real_binary op (as_real a) (as_real b)
        else integer_binary op a b

    unfoldable pub float_literal : String → Option (Parsed F) → Result (Value F)
    float_literal s none = err ("invalid floating literal: " +s s)
    float_literal s (some p) =
        refuse_if (not (p.index == len s)) ("invalid floating literal: " +s s) >> ok (dbl p.value)

    unfoldable pub integer_literal : String → Option (Parsed ℕ) → Result (Value F)
    integer_literal s none = err ("invalid integer literal: " +s s)
    integer_literal s (some p) =
        refuse_if (not (p.index == len s)) ("invalid integer literal: " +s s)
        >> ok (if is_hex s || ltb (2 ^ 63 - 1) p.value then uint p.value else int (pos p.value))

    unfoldable pub parse_literal : String → Result (Value F)
    parse_literal s =
        if str_eq s ""
        then err "empty literal"
        else if str_eq s "true"
        then ok (boolean true)
        else if str_eq s "false"
        then ok (boolean false)
        else if starts_with s "\""
        then err "string literal is not numeric"
        else if has s "."
        then float_literal s (c.strtod s)
        else integer_literal s (c.stoull s (if is_hex s then 16 else 10))

    -- The unary minus on a value, the same in both evaluators.
    unfoldable pub negated : Value F → Result (Value F)
    negated (int z) = refuse_if (eq_ℤ z int64_min) "integer overflow" >> ok (int (neg_ℤ z))
    negated (uint n) =
        refuse_if (ltb (2 ^ 63) n) "integer overflow"
        >> ok (int (if n == 2 ^ 63 then int64_min else neg_ℤ (pos n)))
    negated (dbl x) = ok (dbl (c.negate x))
    negated (boolean _) = err "cannot negate boolean"

    abbrev pub found : String → Option (Value F) → Result (Value F)
    found message none = err message
    found message (some v) = ok v

    -- What the left operand alone decides for `&&` and `||`, or else the whole operation.
    unfoldable pub short_and : Value F → Result (Value F) → Result (Value F)
    short_and (boolean false) rest = ok (boolean false)
    short_and (boolean true) rest = rest
    short_and _ rest = err "logical operator requires boolean operands"

    unfoldable pub short_or : Value F → Result (Value F) → Result (Value F)
    short_or (boolean true) rest = ok (boolean true)
    short_or (boolean false) rest = rest
    short_or _ rest = err "logical operator requires boolean operands"

    unfoldable pub short_circuit : String → Value F → Result (Value F) → Result (Value F)
    short_circuit op a rest =
        if str_eq op "&&"
        then short_and a rest
        else if str_eq op "||"
        then short_or a rest
        else rest

    unfoldable pub eval : List (String × Value F) → Expr → Result (Value F)
    eval env null_expr = err "missing expression"
    eval env (node ExprKind.literal text op ref type l r) = parse_literal text
    eval env (node ExprKind.identifier text op ref type l r) =
        found ("unknown identifier: " +s text) (lookup text env)
    eval env (node ExprKind.parenthesized text op ref type l r) = eval env l
    eval env (node ExprKind.unary text op ref type l r) =
        refuse_if (not (str_eq op "-")) ("unknown unary operator: " +s op) >> eval env r >>= negated
    eval env (node ExprKind.binary text op ref type l r) =
        eval env l >>= λ a. short_circuit op a (eval env r >>= λ b. binary op a b)

    unfoldable pub eval_symbol : List (SymbolId × Value F) → Expr → Result (Value F)
    eval_symbol env null_expr = err "missing expression"
    eval_symbol env (node ExprKind.literal text op ref type l r) = parse_literal text
    eval_symbol env (node ExprKind.identifier text op ref type l r) =
        refuse_if (not (valid ref)) ("unresolved identifier: " +s text)
        >> found ("unknown symbol: " +s text) (lookup ref env)
    eval_symbol env (node ExprKind.parenthesized text op ref type l r) = eval_symbol env l
    eval_symbol env (node ExprKind.unary text op ref type l r) = eval_symbol env r >>= λ v.
        refuse_if (not (str_eq op "-")) ("unknown unary operator: " +s op) >> negated v
    eval_symbol env (node ExprKind.binary text op ref type l r) =
        eval_symbol env l >>= λ a. short_circuit op a (eval_symbol env r >>= λ b. binary op a b)

    unfoldable pub evaluate_integer : List (String × Value F) → Expr → Result ℤ
    evaluate_integer env e = eval env e >>= as_integer

    unfoldable pub evaluate_size : List (String × Value F) → Expr → Result ℕ
    evaluate_size env e = eval env e >>= as_size "size/offset must be an integer"

    unfoldable pub evaluate_integer_symbol : List (SymbolId × Value F) → Expr → Result ℤ
    evaluate_integer_symbol env e = eval_symbol env e >>= as_integer

    unfoldable pub evaluate_size_symbol : List (SymbolId × Value F) → Expr → Result ℕ
    evaluate_size_symbol env e = eval_symbol env e >>= as_size "size expression is not an integer"
