-- ===== src/Plan/Bounds.antt =====
-- plan/PlanBuilder.cpp and plan/Plan.h: the smallest and the largest size of a type. A failure is the
-- text that the source leaves in its `error` parameter, which it tests for being non-empty. The
-- members of a plan's operations are walked by structural recursion; a step into a named type takes
-- one from the fuel, as in Sizes. Undefined behaviour is treated as in Sizes.
pub mod Order
use text.Mathlib.Text.{starts_with}
use embx.Prelude.{
  ℕ, zero, suc, ◌+◌, ◌-◌, ◌*◌, ◌/◌, ◌%◌, ◌^◌, min, max, String, ◌+s◌, Bool, true, false, not, ◌&&◌,
  ◌||◌, Option, none, some, List, [], ◌∷◌, ltb, ◌==◌, str_eq, if◌then◌else◌, length,
}
use embx.Prelude.Result.{Result, ok, err, ◌>>=◌, ◌>>◌, refuse_if}
use embx.Core.CLibrary.{CLibrary}
use embx.Core.Symbol.{SymbolId}
use embx.Core.Types.{TypeKind, DimensionKind, Dimension, CoreType, is_remaining}
use embx.Runtime.Host.{size_max}
use embx.Runtime.Evaluator.{evaluate_size_symbol}
use embx.Plan.Model.{
  Field, Op, null_op, field_op, virtual_op, alias_op, bits_op, variant_op, conditional_op, block_op,
  at_op, align_op, callback_op, Ops, no_ops, cons_op, Cases, no_cases, cons_case, Struct, Enum,
  Alias, Plan, LayoutBounds, is_exact,
}
use embx.Plan.Sizes.{
  primitive_size, add_checked, is_empty, is_null, find_struct_by_type, find_alias_by_type,
  find_enum_by_type, out_of_fuel, enter, layout_fuel, enum_size,
}

abbrev pub bounds : ℕ → Option ℕ → LayoutBounds
bounds min max = record { min_size = min; max_size = max }

abbrev multiply_max : Option ℕ → ℕ → Result (Option ℕ)
multiply_max none n = ok none
multiply_max (some m) n =
    refuse_if (not (m == 0) && ltb (size_max / m) n) "layout maximum overflow" >> ok (some (m * n))

unfoldable pub multiply_bounds : LayoutBounds → ℕ → Result LayoutBounds
multiply_bounds b n =
    refuse_if (not (b.min_size == 0) && ltb (size_max / b.min_size) n) "layout minimum overflow"
    >> (multiply_max b.max_size n >>= λ m. ok (bounds (b.min_size * n) m))

-- An error of the evaluator says that a name has no value, or is passed on.
abbrev count_of : Result ℕ → Result (Option ℕ)
count_of (ok n) = ok (some n)
count_of (err e) =
    if str_eq e "" || starts_with e "unknown identifier:" || starts_with e "unknown symbol:"
    then ok none
    else err e

abbrev pub is_dynamic : DimensionKind → Bool
is_dynamic DimensionKind.dynamic = true
is_dynamic _ = false

-- `none` where the count is not exact.
unfoldable pub dimension_count : {F L : Type 0} → CLibrary F L → Dimension → Result (Option ℕ)
dimension_count c d =
    if is_dynamic d.kind || is_remaining d.kind
    then ok none
    else if is_null d.expression
    then err "layout dimension has no expression"
    else count_of (evaluate_size_symbol c [] d.expression)

pub record SequenceBounds : Type 0 where
  pub cursor_min : ℕ
  pub cursor_max : Option ℕ
  pub extent_min : ℕ
  pub extent_max : Option ℕ

abbrev pub start_at : ℕ → SequenceBounds
start_at n = record { cursor_min = n; cursor_max = some n; extent_min = n; extent_max = some n }

abbrev pub max_both : Option ℕ → Option ℕ → Option ℕ
max_both (some a) (some b) = some (max a b)
max_both _ _ = none

abbrev pub add_max : Option ℕ → Option ℕ → Result (Option ℕ)
add_max (some a) (some b) = add_checked a b "layout maximum overflow" >>= λ n. ok (some n)
add_max _ _ = ok none

-- The cursor is moved, and the extent follows it.
abbrev pub moved : SequenceBounds → ℕ → Option ℕ → SequenceBounds
moved s next_min next_max = record {
  cursor_min = next_min;
  cursor_max = next_max;
  extent_min = max s.extent_min next_min;
  extent_max = max_both s.extent_max next_max;
}

unfoldable pub add_cursor : SequenceBounds → LayoutBounds → Result SequenceBounds
add_cursor s b = add_checked s.cursor_min b.min_size "layout minimum overflow" >>= λ next_min.
    add_max s.cursor_max b.max_size >>= λ next_max. ok (moved s next_min next_max)

unfoldable pub merge_extent : SequenceBounds → SequenceBounds → SequenceBounds
merge_extent s child = record s {
  extent_min = max s.extent_min child.extent_min;
  extent_max = max_both s.extent_max child.extent_max;
}

abbrev pub align_up : ℕ → ℕ → String → Result ℕ
align_up a x message = if x % a == 0 then ok x else add_checked x (a - x % a) message

abbrev pub align_max : ℕ → Option ℕ → Result (Option ℕ)
align_max a none = ok none
align_max a (some x) = align_up a x "layout maximum overflow" >>= λ n. ok (some n)

unfoldable pub align_step : Option ℕ → SequenceBounds → Result SequenceBounds
align_step none s = err "align is not finalized"
align_step (some a) s =
    refuse_if (a == 0) "align is not finalized"
    >> (align_up a s.cursor_min "layout minimum overflow" >>= λ next_min.
        align_max a s.cursor_max >>= λ next_max. ok (moved s next_min next_max))

abbrev pub extent : SequenceBounds → LayoutBounds
extent s = bounds s.extent_min s.extent_max

unfoldable pub either_bounds : LayoutBounds → LayoutBounds → LayoutBounds
either_bounds a b = bounds (min a.min_size b.min_size) (max_both a.max_size b.max_size)

-- The state of the loop over the branches of a variant.
pub record BranchBounds : Type 0 where
  pub have : Bool
  pub min_value : ℕ
  pub max_value : Option ℕ

abbrev pub no_branch : BranchBounds
no_branch = record { have = false; min_value = size_max; max_value = some 0 }

unfoldable pub take_branch : BranchBounds → LayoutBounds → BranchBounds
take_branch s b = record {
  have = true;
  min_value = min s.min_value b.min_size;
  max_value = max_both s.max_value b.max_size;
}

unfoldable pub branches : BranchBounds → LayoutBounds
branches s = if s.have then bounds s.min_value s.max_value else bounds 0 (some 0)

abbrev pub block_bounds : Option ℕ → LayoutBounds
block_bounds (some n) = bounds n (some n)
block_bounds none = bounds 0 none

-- The default of a variant, given the bounds of its members.
unfoldable pub default_bounds :
    (CoreType → Result LayoutBounds)
    → Bool
    → Option CoreType
    → Result SequenceBounds
    → BranchBounds
    → Result BranchBounds
default_bounds type_bounds false t of_members s = ok s
default_bounds type_bounds true (some t) of_members s = type_bounds t >>= λ b. ok (take_branch s b)
default_bounds type_bounds true none of_members s =
    of_members >>= λ b. ok (take_branch s (extent b))

module _ {F : Type 0} (type_bounds : CoreType → Result LayoutBounds) where
  unfoldable mutual
    pub member_bounds : Op F → Result LayoutBounds
    member_bounds null_op = err "null plan operation"
    member_bounds (field_op f) = type_bounds f.type
    member_bounds (virtual_op _ _ _) = ok (bounds 0 (some 0))
    member_bounds (alias_op _ _ _ _) = ok (bounds 0 (some 0))
    member_bounds (bits_op _ _ storage) = ok (bounds storage (some storage))
    member_bounds (variant_op _ _ cases has_default default_type default_members) =
        cases_bounds cases no_branch >>= λ s.
        default_bounds type_bounds has_default default_type
          (sequence_from default_members (start_at 0)) s
        >>= λ s'. ok (branches s')
    member_bounds (conditional_op _ then_members else_members) =
        sequence_from then_members (start_at 0) >>= λ a.
        sequence_from else_members (start_at 0) >>= λ b. ok (either_bounds (extent a) (extent b))
    member_bounds (block_op _ _ static_size _) = ok (block_bounds static_size)
    member_bounds (at_op _ none members) = ok (bounds 0 none)
    member_bounds (at_op _ (some offset) members) =
        sequence_from members (start_at offset) >>= λ s. ok (extent s)
    member_bounds (align_op _ _) = ok (bounds 0 (some 0))
    member_bounds (callback_op _ _ _) = ok (bounds 0 (some 0))

    pub cases_bounds : Cases F → BranchBounds → Result BranchBounds
    cases_bounds no_cases s = ok s
    cases_bounds (cons_case _ (some t) members rest) s =
        type_bounds t >>= λ b. cases_bounds rest (take_branch s b)
    cases_bounds (cons_case _ none members rest) s =
        sequence_from members (start_at 0) >>= λ b. cases_bounds rest (take_branch s (extent b))

    -- The loop of `sequenceBounds` over the rest of the members.
    pub sequence_from : Ops F → SequenceBounds → Result SequenceBounds
    sequence_from no_ops s = ok s
    sequence_from (cons_op null_op rest) s = err "null plan operation"
    sequence_from (cons_op (at_op _ none members) rest) s =
        sequence_from rest (record s { extent_max = none })
    sequence_from (cons_op (at_op _ (some offset) members) rest) s =
        sequence_from members (start_at offset) >>= λ inner.
        sequence_from rest (merge_extent s inner)
    sequence_from (cons_op (align_op _ alignment) rest) s =
        align_step alignment s >>= λ s'. sequence_from rest s'
    sequence_from (cons_op op rest) s =
        member_bounds op >>= λ b. add_cursor s b >>= λ s'. sequence_from rest s'
