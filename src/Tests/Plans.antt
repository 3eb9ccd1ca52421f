-- ===== src/Tests/Plans.antt =====
-- plan/PlanBuilder.cpp: the layout of a struct of a byte, an alignment and a word, and of an alias that
-- stands for itself.
use embx.Prelude.{ℕ, ◌+◌, ◌*◌, ◌≡◌, ◌≤◌, ◌↔◌, refl, String, none, some, [], ◌∷◌}
use embx.Prelude.Int.{ℤ}
use embx.Prelude.Map.{lookup}
use embx.Prelude.Result.{ok, err}
use embx.Core.Symbol.{SymbolKind}
use embx.Core.Expr.{ExprKind, ExprType, Expr, null_expr, node}
use embx.Core.Types.{TypeKind, CoreType}
use embx.Runtime.Host.{little}
use embx.Plan.Model.{
  Field, Op, field_op, align_op, conditional_op, Ops, no_ops, cons_op, Struct, Plan,
}
use embx.Plan.Visiting.{seen}
use embx.Plan.Sizes.{
  primitive_size, add_checked, find_struct_by_type, find_alias_by_type, find_enum_by_type,
  layout_fuel, resolve_integer_primitive, fixed_op, fixed_ops, fixed_dims, fixed_named, fixed_base,
  fixed_step, fixed_type_size_from, fixed_type_size,
}
use embx.Plan.Sizes.Fuel.{fixed_type_size-ends, resolve_integer_primitive-ends}
use embx.Plan.Bounds.{bounds, add_cursor, either_bounds, member_bounds, cases_bounds, sequence_from}
use embx.Plan.TypeBounds.{
  base_bounds, dims_bounds, bounds_step, layout_bounds_from, layout_bounds, size_in_bytes,
  min_size_in_bytes, max_size_in_bytes,
}
use embx.Plan.TypeBounds.Fuel.{layout_bounds-ends}
use embx.Plan.TypeBounds.Order.{layout_bounds-Ordered}
use embx.Plan.TypeBounds.SameSize.{layout_bounds-fixed_type_size, size_in_bytes-min-max}
use embx.Plan.Layout.{known_size, layout_op, layout_ops, compute_struct_layout}
use embx.Plan.Layout.Place.{Placed, has_conditional}
use embx.Plan.Layout.Placed.{compute_struct_layout-Placed}
use embx.Runtime.Evaluator.{
  eval_symbol, parse_literal, integer_literal, as_size, evaluate_size_symbol,
}
use embx.Runtime.Array.{checked_element_count, count_loop, descriptor_valid}
use embx.Plan.ArrayDescriptor.{
  element_size, dimension_value, dimension_values, make_array_descriptor,
}
use embx.Plan.ArrayDescriptor.Sized.{make_array_descriptor-fixed_type_size}
use embx.Tests.Values.{library, five_words, made}

abbrev pub type_of : TypeKind → String → ℕ → CoreType
type_of kind name reference = record {
  kind = kind;
  name = name;
  reference = reference;
  dimensions = [];
  terminator = [];
  max_payload = none;
}

abbrev pub plain_field : ℕ → String → CoreType → Field ℤ
plain_field symbol name type = record {
  symbol = symbol;
  name = name;
  type = type;
  endian = little;
  static_length = none;
  static_offset = none;
  static_size = none;
  bits = 0;
  assertion = "";
  transform = none;
}

abbrev pub struct_of : ℕ → String → Ops ℤ → Struct ℤ
struct_of symbol name members = record {
  symbol = symbol;
  name = name;
  endian = little;
  requirements = [];
  members = members;
  static_size = none;
  min_size_in_bytes = 0;
  size_in_bytes = none;
  max_size_in_bytes = none;
}

abbrev literal : String → ExprType → Expr
literal text t = node ExprKind.literal text "" 0 t null_expr null_expr

abbrev four : Expr
four = literal "4" ExprType.integer_signed

abbrev always : Expr
always = literal "true" ExprType.boolean

abbrev pub byte_field : Op ℤ
byte_field = field_op (plain_field 2 "a" (type_of TypeKind.primitive "u8" 0))

abbrev pub word_field : Op ℤ
word_field = field_op (plain_field 3 "b" (type_of TypeKind.primitive "u32" 0))

abbrev pub pair : Struct ℤ
pair =
    struct_of 1 "Pair"
      (cons_op byte_field (cons_op (align_op four (some 4)) (cons_op word_field no_ops)))

-- A byte, and a word behind it under a condition.
abbrev maybe : Struct ℤ
maybe =
    struct_of 5 "Maybe" (
      cons_op byte_field
        (cons_op (conditional_op always (cons_op word_field no_ops) no_ops) no_ops))

abbrev pub pair_type : CoreType
pair_type = type_of TypeKind.named "Pair" 1

abbrev loop_type : CoreType
loop_type = type_of TypeKind.named "Loop" 4

abbrev maybe_type : CoreType
maybe_type = type_of TypeKind.named "Maybe" 5

abbrev pub plan : Plan ℤ
plan = record {
  endian = little;
  aliases = record { symbol = 4; name = "Loop"; target = loop_type } ∷ [];
  structs = pair ∷ maybe ∷ [];
  enums = [];
  constants = [];
  parameters = [];
  symbol_table = record {
    symbols =
        record { id = 1; kind = SymbolKind.struct; name = "Pair" }
        ∷ record { id = 2; kind = SymbolKind.field; name = "a" }
        ∷ record { id = 3; kind = SymbolKind.field; name = "b" }
        ∷ record { id = 4; kind = SymbolKind.type_alias; name = "Loop" }
        ∷ record { id = 5; kind = SymbolKind.struct; name = "Maybe" }
        ∷ [];
    by_name = [];
  };
  struct_index_by_symbol = (1, 0) ∷ (5, 1) ∷ [];
  alias_index_by_symbol = (4, 0) ∷ [];
  enum_index_by_symbol = [];
}

layout_bounds-ends_example :
    layout_bounds_from plan library (ok (bounds 0 none)) (layout_fuel plan + 2) [] loop_type
    ≡ layout_bounds plan library loop_type
layout_bounds-ends_example = layout_bounds-ends plan library (ok (bounds 0 none)) 2 loop_type

loop_refused : layout_bounds plan library loop_type ≡ err "cyclic alias in layout bounds: Loop"
unfolding layout_bounds layout_bounds_from layout_fuel bounds_step base_bounds primitive_size
    find_struct_by_type find_enum_by_type find_alias_by_type lookup seen dims_bounds
loop_refused = refl

fixed_type_size-ends_example :
    fixed_type_size_from plan library (ok 0) (layout_fuel plan + 3) [] loop_type
    ≡ fixed_type_size plan library loop_type
fixed_type_size-ends_example = fixed_type_size-ends plan library (ok 0) 3 loop_type

resolve_integer_primitive-ends_example :
    resolve_integer_primitive plan (ok "u8") (layout_fuel plan + 1) [] loop_type
    ≡ resolve_integer_primitive plan (err "") (layout_fuel plan) [] loop_type
resolve_integer_primitive-ends_example =
    resolve_integer_primitive-ends plan (ok "u8") (err "") 1 loop_type

layout_bounds-Ordered_example : 1 ≤ 5
layout_bounds-Ordered_example =
    layout_bounds-Ordered plan library maybe_type {b = bounds 1 (some 5)} {m = 5}
      (unfold layout_bounds layout_bounds_from layout_fuel bounds_step base_bounds primitive_size
          find_struct_by_type lookup seen dims_bounds member_bounds cases_bounds sequence_from
          add_cursor add_checked either_bounds in
        refl)
      refl

pair_size : fixed_type_size plan library pair_type ≡ ok 8
unfolding fixed_type_size fixed_type_size_from layout_fuel fixed_step fixed_base fixed_named
    fixed_ops fixed_op fixed_dims primitive_size find_struct_by_type lookup seen add_checked
pair_size = refl

layout_bounds-fixed_type_size_example :
    layout_bounds plan library pair_type ≡ ok (bounds 8 (some 8))
layout_bounds-fixed_type_size_example =
    layout_bounds-fixed_type_size plan library pair_type pair_size

size_in_bytes-min-max_example : (size_in_bytes plan library pair_type ≡ ok 8) ↔ (
    (min_size_in_bytes plan library pair_type ≡ ok 8)
    × (max_size_in_bytes plan library pair_type ≡ ok 8))
size_in_bytes-min-max_example = size_in_bytes-min-max plan library pair_type 8

abbrev placed_field : Field ℤ → ℕ → ℕ → Op ℤ
placed_field f offset size =
    field_op (record f { static_offset = some offset; static_size = some size })

abbrev pair_members : Ops ℤ
pair_members = cons_op (placed_field (plain_field 2 "a" (type_of TypeKind.primitive "u8" 0)) 0 1) (
    cons_op (align_op four (some 4))
      (cons_op (placed_field (plain_field 3 "b" (type_of TypeKind.primitive "u32" 0)) 4 4) no_ops))

compute_struct_layout-Placed_example : Placed plan library 8 0 pair_members
compute_struct_layout-Placed_example =
    compute_struct_layout-Placed plan library pair
      {done = record pair { members = pair_members; static_size = some 8 }} {n = 8}
      (unfold has_conditional in refl) refl
      (unfold compute_struct_layout layout_ops layout_op known_size fixed_type_size
          fixed_type_size_from layout_fuel fixed_step fixed_base fixed_dims primitive_size
          add_checked in
        refl)
      refl

make_array_descriptor-fixed_type_size_example : 10 ≡ 2 * 5
make_array_descriptor-fixed_type_size_example =
    make_array_descriptor-fixed_type_size plan library five_words made {n = 10}
      (unfold make_array_descriptor element_size dimension_values dimension_value
          evaluate_size_symbol eval_symbol parse_literal integer_literal as_size
          checked_element_count count_loop descriptor_valid fixed_type_size fixed_type_size_from
          layout_fuel fixed_step fixed_base fixed_dims primitive_size in
        refl)
      (unfold fixed_type_size fixed_type_size_from layout_fuel fixed_step fixed_base fixed_dims
          primitive_size evaluate_size_symbol eval_symbol parse_literal integer_literal as_size in
        refl)
