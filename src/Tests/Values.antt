-- ===== src/Tests/Values.antt =====
-- core/Expr.h, runtime/ExpressionEvaluator.cpp and runtime/Array.h at concrete inputs.
use embx.Prelude.{
  ℕ, ◌≡◌, refl, ◌≤◌, ◌+◌, String, Bool, true, false, Option, none, some, List, [], ◌∷◌, arith,
  str_eq, if◌then◌else◌,
}
use embx.Prelude.Int.{ℤ, pos, negsuc, ◌+ℤ◌, ◌-ℤ◌, ◌*ℤ◌, ltb_ℤ}
use embx.Prelude.Map.{lookup, text_key}
use embx.Prelude.Result.{ok, err}
use embx.Core.CLibrary.{Parsed, CLibrary}
use embx.Core.Symbol.{SymbolId}
use embx.Core.Expr.{
  ExprKind, ExprType, Expr, null_expr, node, clone, infer, infer_literal, integer_type, binary_type,
  arithmetic_type, annotate, annotated_left, annotated_right, child, set_type,
}
use embx.Core.Expr.Annotate.{erase, IsAnnotated, annotate-clone}
use embx.Runtime.Signed.{checked_signed, mul_signed, mul_overflows, int64_max}
use embx.Runtime.Signed.Exact.{exact, checked_signed-exact}
use embx.Runtime.Evaluator.{
  Value, int, uint, is_double, eval, eval_symbol, parse_literal, integer_literal, short_circuit,
  binary, integer_binary, integer_operands, unsigned_binary, compare_integers,
}
use embx.Core.Types.{TypeKind, DimensionKind, CoreType}
use embx.Plan.ArrayDescriptor.{element_size}
use embx.Runtime.Array.{ArrayDescriptor}
use embx.Prelude.Result.{Result}
use embx.Runtime.Evaluator.Compared.{ordered, compare_integers-ordered}
use embx.Runtime.Evaluator.Agree.{to_option, Mirrors, eval_symbol-eval}
use embx.Runtime.Evaluator.Typed.{is_uint, IsPlain, has_type, eval-infer}
use embx.Runtime.Array.{
  ArrayElementKind, ArrayView, element_at, view_valid, descriptor_valid, count_loop,
}
use embx.Runtime.Array.Place.{element_at-place}

checked_signed-exact_example :
    (checked_signed int64_max (negsuc 1) "+" ≡ exact (int64_max +ℤ negsuc 1))
    × (checked_signed int64_max (negsuc 1) "-" ≡ exact (int64_max -ℤ negsuc 1))
    × (checked_signed int64_max (negsuc 1) "*" ≡ exact (int64_max *ℤ negsuc 1))
checked_signed-exact_example = checked_signed-exact int64_max (negsuc 1) refl refl

product_overflows : checked_signed int64_max (negsuc 1) "*" ≡ err "integer overflow"
unfolding checked_signed mul_signed mul_overflows
product_overflows = refl

-- A view of 2 rows of 3 elements of 4 bytes.
abbrev rows : ArrayView
rows = record {
  descriptor = record {
    element_kind = ArrayElementKind.primitive;
    element_type_id = 0;
    element_size = 4;
    element_count = 6;
    dimensions = 2 ∷ 3 ∷ [];
  };
  buffer = record { is_null = false; size = 24 };
}

rows_valid : view_valid rows ≡ ok tt
unfolding view_valid descriptor_valid count_loop
rows_valid = refl

element_at-place_example : (element_at (1 ∷ 2 ∷ []) rows ≡ ok 20) × (20 + 4 ≤ 24)
element_at-place_example =
    element_at-place (1 ∷ 2 ∷ []) rows rows_valid (omega arith, (omega arith, tt))

compare_integers-ordered_example :
    compare_integers {F = ℤ} (uint 5) (int (pos 7)) ≡ ok (ordered (pos 5) (pos 7))
compare_integers-ordered_example =
    compare_integers-ordered {F = ℤ} (uint 5) (int (pos 7)) (pos 5) (pos 7) (refl, omega arith)
      (refl, refl)

-- A library of which floats are integers, no float literal parses and the only integer literal is 5.
abbrev parse_five : String → ℕ → Option (Parsed ℕ)
parse_five s base = if str_eq s "5" then some (record { value = 5; index = 1 }) else none

abbrev pub library : CLibrary ℤ ℤ
library = record {
  strtod = λ s. none;
  stoull = parse_five;
  is_finite = λ x. true;
  negate = λ x. pos 0 -ℤ x;
  widen = λ x. x;
  of_int = λ x. x;
  narrow = λ x. x;
  add = ◌+ℤ◌;
  sub = ◌-ℤ◌;
  mul = ◌*ℤ◌;
  div = λ x y. x;
  eq = λ x y. false;
  lt = ltb_ℤ;
  le = λ x y. true;
}

-- `5 + $next`
abbrev five : Expr
five = node ExprKind.literal "5" "" 0 ExprType.unknown null_expr null_expr

abbrev next : Expr
next = node ExprKind.identifier "$next" "" 9 ExprType.unknown null_expr null_expr

abbrev sum : Expr
sum = node ExprKind.binary "" "+" 0 ExprType.unknown five next

abbrev annotated_sum : Expr
annotated_sum =
    node ExprKind.binary "" "+" 0 ExprType.integer_unsigned
      (node ExprKind.literal "5" "" 0 ExprType.integer_signed null_expr null_expr)
      (node ExprKind.identifier "$next" "" 9 ExprType.integer_unsigned null_expr null_expr)

annotate-clone_example :
    IsAnnotated library annotated_sum
    × (erase annotated_sum ≡ erase sum)
    × (infer library annotated_sum ≡ infer library sum)
    × (clone annotated_sum ≡ annotated_sum)
annotate-clone_example = annotate-clone library sum annotated_sum (
    unfold annotate annotated_left annotated_right child set_type infer infer_literal integer_type
      binary_type arithmetic_type in
    refl)

abbrev named_env : List (String × Value ℤ)
named_env = ("$next", uint 37) ∷ []

abbrev symbol_env : List (SymbolId × Value ℤ)
symbol_env = (9, uint 37) ∷ []

eval_symbol-eval_example :
    to_option (eval_symbol library symbol_env sum) ≡ to_option (eval library named_env sum)
eval_symbol-eval_example =
    eval_symbol-eval library named_env symbol_env sum (unfold Mirrors lookup in (tt, (refl, refl)))

one_entry :
    (b : Bool) {P : Type 0} (v : Value ℤ)
    → (if b then some (uint 37) else none) ≡ some v
    → (is_double v ≡ false) × (P → is_uint v ≡ true)
one_entry true v h = let same : uint 37 ≡ v = cc in (rw (← same) refl, λ p. rw (← same) refl)
one_entry false v h = cc

named_env-IsPlain : IsPlain named_env
unfolding lookup
named_env-IsPlain name v h = one_entry (str_eq "$next" name) v h

eval-infer_example : has_type {F = ℤ} ExprType.integer_unsigned (uint 42) ≡ true
eval-infer_example =
    eval-infer library named_env sum ExprType.integer_unsigned (uint 42) named_env-IsPlain
      (unfold infer infer_literal integer_type binary_type arithmetic_type in refl)
      (unfold eval parse_literal integer_literal short_circuit binary integer_binary
          integer_operands unsigned_binary lookup in
        refl)

-- Five elements of two bytes.
abbrev pub five_words : CoreType
five_words = record {
  kind = TypeKind.primitive;
  name = "u16";
  reference = 0;
  dimensions = record { kind = DimensionKind.fixed; expression = five } ∷ [];
  terminator = [];
  max_payload = none;
}

abbrev two_bytes : CoreType → Result ℕ
two_bytes type = ok 2

abbrev pub made : ArrayDescriptor
made = record {
  element_kind = ArrayElementKind.primitive;
  element_type_id = 0;
  element_size = 2;
  element_count = 5;
  dimensions = 5 ∷ [];
}
