-- ===== src/Core/Expr.antt =====
-- core/Expr.h: expression trees, the inference of their types, their annotation and their copies.

pub mod Annotate
use Prim.Native.String.{len, find}
use text.Mathlib.Text.{starts_with}
use embx.Prelude.{
  ℕ, ◌-◌, ◌^◌, String, ◌+s◌, Bool, true, false, not, ◌&&◌, ◌||◌, Option, none, some, ltb, leb, ◌==◌,
  str_eq, if◌then◌else◌,
}
use embx.Prelude.Result.{Result, ok, err, ◌>>=◌, ◌>>◌, refuse_if}
use embx.Core.CLibrary.{Parsed, CLibrary}
use embx.Core.Symbol.{SymbolId}

pub data ExprKind : Type 0 where
  literal identifier unary binary parenthesized : ExprKind

pub data ExprType : Type 0 where
  unknown integer_signed integer_unsigned floating boolean string invalid : ExprType

-- `Expr*`: a null pointer, or a node with its text, operator, reference, type and children.
pub data Expr : Type 0 where
  null_expr : Expr
  node : ExprKind → String → String → SymbolId → ExprType → Expr → Expr → Expr

-- `s.find(t) != std::string::npos`
abbrev pub has : String → String → Bool
has s t = leb (find s t) (len s)

abbrev pub is_hex : String → Bool
is_hex s = ltb 2 (len s) && (starts_with s "0x" || starts_with s "0X")

abbrev pub is_next_or_size : String → Bool
is_next_or_size s =
    str_eq s "$next"
    || str_eq s "$size_in_bytes"
    || str_eq s "$min_size_in_bytes"
    || str_eq s "$max_size_in_bytes"

abbrev pub is_arithmetic : String → Bool
is_arithmetic o = str_eq o "+" || str_eq o "-" || str_eq o "*" || str_eq o "/" || str_eq o "%"

abbrev pub is_comparison : String → Bool
is_comparison o =
    str_eq o "==" || str_eq o "!=" || str_eq o "<" || str_eq o "<=" || str_eq o ">" || str_eq o ">="

abbrev pub is_logical : String → Bool
is_logical o = str_eq o "&&" || str_eq o "||"

abbrev pub is_numeric : ExprType → Bool
is_numeric ExprType.integer_signed = true
is_numeric ExprType.integer_unsigned = true
is_numeric ExprType.floating = true
is_numeric ExprType.unknown = false
is_numeric ExprType.boolean = false
is_numeric ExprType.string = false
is_numeric ExprType.invalid = false

abbrev pub is_unknown : ExprType → Bool
is_unknown ExprType.unknown = true
is_unknown _ = false

abbrev pub is_floating : ExprType → Bool
is_floating ExprType.floating = true
is_floating _ = false

abbrev pub is_unsigned : ExprType → Bool
is_unsigned ExprType.integer_unsigned = true
is_unsigned _ = false

abbrev pub is_boolean : ExprType → Bool
is_boolean ExprType.boolean = true
is_boolean _ = false

-- The unary minus on an operand's type.
unfoldable pub negated_type : ExprType → Result ExprType
negated_type ExprType.unknown = ok ExprType.unknown
negated_type ExprType.integer_unsigned = ok ExprType.integer_signed
negated_type ExprType.integer_signed = ok ExprType.integer_signed
negated_type ExprType.floating = ok ExprType.floating
negated_type _ = err "unary '-' requires a numeric operand"

unfoldable pub logical_type : ExprType → ExprType → Result ExprType
logical_type l r =
    refuse_if (not (is_boolean l) && not (is_unknown l))
      "logical operator requires boolean operands"
    >> refuse_if (not (is_boolean r) && not (is_unknown r))
        "logical operator requires boolean operands"
    >> ok ExprType.boolean

unfoldable pub comparison_type : ExprType → ExprType → Result ExprType
comparison_type l r =
    refuse_if (not (is_unknown l) && not (is_unknown r) && not (is_numeric l && is_numeric r))
      "comparison operands must be numeric"
    >> ok ExprType.boolean

abbrev pub joined : ExprType → ExprType → ExprType
joined l r =
    if is_floating l || is_floating r
    then ExprType.floating
    else if is_unsigned l || is_unsigned r
    then ExprType.integer_unsigned
    else if is_unknown l || is_unknown r
    then ExprType.unknown
    else ExprType.integer_signed

unfoldable pub arithmetic_type : String → ExprType → ExprType → Result ExprType
arithmetic_type op l r =
    refuse_if (str_eq op "%" && (is_floating l || is_floating r)) "% requires integer operands"
    >> refuse_if
        ((not (is_unknown l) && not (is_numeric l)) || (not (is_unknown r) && not (is_numeric r)))
        "arithmetic operator requires numeric operands"
    >> ok (joined l r)

unfoldable pub binary_type : String → ExprType → ExprType → Result ExprType
binary_type op l r =
    if is_logical op
    then logical_type l r
    else if is_comparison op
    then comparison_type l r
    else arithmetic_type op l r

-- `std::unique_ptr` copies of the whole tree.
unfoldable pub clone : Expr → Expr
clone null_expr = null_expr
clone (node k text op ref type l r) = node k text op ref type (clone l) (clone r)

module _ {F L : Type 0} (c : CLibrary F L) where
  unfoldable pub float_type : String → Option (Parsed F) → Result ExprType
  float_type text none = err ("invalid floating literal: " +s text)
  float_type text (some p) =
      refuse_if (not (p.index == len text) || not (c.is_finite p.value))
        ("invalid floating literal: " +s text)
      >> ok ExprType.floating

  unfoldable pub integer_type : String → Option (Parsed ℕ) → Result ExprType
  integer_type text none = err ("invalid integer literal: " +s text)
  integer_type text (some p) =
      refuse_if (not (p.index == len text)) ("invalid integer literal: " +s text)
      >> ok (
          if is_hex text || ltb (2 ^ 63 - 1) p.value
          then ExprType.integer_unsigned
          else ExprType.integer_signed)

  unfoldable pub infer_literal : String → Result ExprType
  infer_literal text =
      if str_eq text ""
      then err "empty literal"
      else if str_eq text "true" || str_eq text "false"
      then ok ExprType.boolean
      else if starts_with text "\""
      then ok ExprType.string
      else if has text "."
      then float_type text (c.strtod text)
      else integer_type text (c.stoull text (if is_hex text then 16 else 10))

  unfoldable pub infer : Expr → Result ExprType
  infer null_expr = err "missing expression"
  infer (node ExprKind.literal text op ref type l r) = infer_literal text
  infer (node ExprKind.identifier text op ref type l r) =
      if str_eq text ""
      then err "empty expression node"
      else if is_next_or_size text
      then ok ExprType.integer_unsigned
      else ok ExprType.unknown
  infer (node ExprKind.parenthesized text op ref type l r) = infer l
  infer (node ExprKind.unary text op ref type l r) =
      refuse_if (not (str_eq op "-")) ("unknown unary operator: " +s op) >> infer r >>= negated_type
  infer (node ExprKind.binary text op ref type l r) =
      refuse_if (not (is_arithmetic op || is_comparison op || is_logical op))
        ("unknown operator: " +s op)
      >> (infer l >>= λ a. infer r >>= λ b. binary_type op a b)

  -- `e->type = inferExprType(e, error)` once the children are annotated.
  unfoldable pub set_type :
      ExprKind
      → String
      → String
      → SymbolId
      → Expr
      → Expr
      → Result ExprType
      → Expr × Result (Unit {0})
  set_type k text op ref l r (ok t) = (node k text op ref t l r, ok tt)
  set_type k text op ref l r (err e) = (node k text op ref ExprType.invalid l r, err e)

  unfoldable pub annotated_right :
      ExprKind
      → String
      → String
      → SymbolId
      → ExprType
      → Expr
      → Expr × Result (Unit {0})
      → Expr × Result (Unit {0})
  unfolding set_type
  annotated_right k text op ref type l (r, err e) = (node k text op ref type l r, err e)
  annotated_right k text op ref type l (r, ok _) =
      set_type k text op ref l r (infer (node k text op ref type l r))

  unfoldable pub annotated_left :
      ExprKind
      → String
      → String
      → SymbolId
      → ExprType
      → Expr × Result (Unit {0})
      → Expr
      → Expr × Result (Unit {0})
      → Expr × Result (Unit {0})
  unfolding annotated_right
  annotated_left k text op ref type (l, err e) r annotated = (node k text op ref type l r, err e)
  annotated_left k text op ref type (l, ok _) r annotated =
      annotated_right k text op ref type l annotated

  -- `!e->left || annotateExprTypes(e->left)`
  unfoldable pub child : Expr → Expr × Result (Unit {0}) → Expr × Result (Unit {0})
  child null_expr annotated = (null_expr, ok tt)
  child (node _ _ _ _ _ _ _) annotated = annotated

  -- The tree as it is left, and whether the annotation went through.
  unfoldable pub annotate : Expr → Expr × Result (Unit {0})
  unfolding annotated_left child
  annotate null_expr = (null_expr, err "missing expression")
  annotate (node k text op ref type l r) =
      annotated_left k text op ref type (child l (annotate l)) r (child r (annotate r))
