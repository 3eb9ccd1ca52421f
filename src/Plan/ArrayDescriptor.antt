-- ===== src/Plan/ArrayDescriptor.antt =====
-- plan/ArrayDescriptor.cpp: the runtime descriptor of a planned array type. `fixedTypeSize` of the
-- plan, which gives the size of an element or a message, is a parameter of the section.
pub mod Sized
pub mod Valid
use embx.Prelude.{ℕ, String, Bool, true, false, List, [], ◌∷◌, str_eq, if◌then◌else◌}
use embx.Prelude.Result.{Result, ok, err, ◌>>=◌, ◌>>◌, refuse_if}
use embx.Core.CLibrary.{CLibrary}
use embx.Core.Symbol.{SymbolId, valid}
use embx.Core.Expr.{Expr, null_expr, node}
use embx.Core.Types.{TypeKind, Dimension, CoreType, is_remaining}
use embx.Runtime.Array.{ArrayElementKind, ArrayDescriptor, checked_element_count, descriptor_valid}
use embx.Runtime.Evaluator.{Value, evaluate_size_symbol}

abbrev pub element_kind : TypeKind → ArrayElementKind
element_kind TypeKind.primitive = ArrayElementKind.primitive
element_kind TypeKind.bytes = ArrayElementKind.bytes
element_kind TypeKind.string = ArrayElementKind.string
element_kind TypeKind.named = ArrayElementKind.named

abbrev pub is_unknown : ArrayElementKind → Bool
is_unknown ArrayElementKind.unknown = true
is_unknown _ = false

abbrev is_null : Expr → Bool
is_null null_expr = true
is_null (node _ _ _ _ _ _ _) = false

abbrev pub has_none : List Dimension → Bool
has_none [] = true
has_none (_ ∷ _) = false

-- The message of `makeArrayDescriptor` where `fixedTypeSize` left none.
abbrev pub with_message : Result ℕ → Result ℕ
with_message (ok n) = ok n
with_message (err e) =
    err (if str_eq e "" then "array element type has no fixed encoded size" else e)

module _ {F L : Type 0} (c : CLibrary F L) (fixed_type_size : CoreType → Result ℕ) where
  unfoldable pub element_size : CoreType → Result ℕ
  element_size type = fixed_type_size (record type { dimensions = [] })

  unfoldable pub dimension_value : List (SymbolId × Value F) → Dimension → Result ℕ
  dimension_value env d =
      refuse_if (is_remaining d.kind)
        "remaining array dimension requires a terminated-sequence runtime boundary"
      >> refuse_if (is_null d.expression) "array dimension has no expression"
      >> evaluate_size_symbol c env d.expression

  unfoldable pub dimension_values : List (SymbolId × Value F) → List Dimension → Result (List ℕ)
  dimension_values env [] = ok []
  dimension_values env (d ∷ ds) = dimension_value env d >>= λ extent.
      dimension_values env ds >>= λ extents. ok (extent ∷ extents)

  unfoldable pub make_array_descriptor :
      CoreType → List (SymbolId × Value F) → Result ArrayDescriptor
  make_array_descriptor type env = do
    refuse_if (has_none type.dimensions) "array descriptor requires at least one dimension"
    refuse_if (is_unknown (element_kind type.kind)) "unsupported array element type"
    size ← with_message (element_size type)
    extents ← dimension_values env type.dimensions
    count ← checked_element_count extents
    let descriptor : ArrayDescriptor = record {
      element_kind = element_kind type.kind;
      element_type_id = if valid type.reference then type.reference else 0;
      element_size = size;
      element_count = count;
      dimensions = extents;
    }
    descriptor_valid descriptor
    ok descriptor
