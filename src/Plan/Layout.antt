-- ===== src/Plan/Layout.antt =====
-- plan/PlanBuilder.cpp: the static offsets and sizes of a struct's members. Undefined behaviour is
-- treated as in Sizes; an operation that the source changes in place is part of the result.
pub mod Moved
pub mod Place
pub mod Placed
use embx.Prelude.{
  ℕ, ◌+◌, ◌-◌, ◌%◌, ◌^◌, max, String, ◌+s◌, Bool, true, false, not, ◌&&◌, ◌||◌, Option, none, some,
  List, [], ◌∷◌, ltb, ◌==◌, str_eq, if◌then◌else◌,
}
use embx.Prelude.Result.{Result, ok, err, ◌>>=◌, ◌>>◌, refuse_if}
use embx.Core.CLibrary.{CLibrary}
use embx.Core.Symbol.{SymbolId, builtin_next_symbol_id}
use embx.Core.Expr.{Expr}
use embx.Core.Types.{CoreType}
use embx.Runtime.Host.{size_max}
use embx.Runtime.Evaluator.{Value, uint, evaluate_size_symbol}
use embx.Plan.Model.{
  Field, Op, null_op, field_op, virtual_op, alias_op, bits_op, variant_op, conditional_op, block_op,
  at_op, align_op, callback_op, Ops, no_ops, cons_op, Struct, Plan,
}
use embx.Plan.Sizes.{add_checked, fixed_type_size, is_empty, is_null}

abbrev overflow : String
overflow = "fixed layout overflow"

-- The end of an alignment from a cursor on.
unfoldable pub align_end : Option ℕ → ℕ → Result ℕ
align_end none cursor = err ""
align_end (some a) cursor =
    if a == 0
    then err ""
    else if cursor % a == 0
    then ok cursor
    else add_checked cursor (a - cursor % a) overflow

unfoldable pub block_end : Option ℕ → ℕ → Result ℕ
block_end none cursor = err "block has no fixed size"
block_end (some n) cursor = add_checked cursor n "block has no fixed size"

unfoldable pub known_size : Result ℕ → Option ℕ
known_size (ok n) = some n
known_size (err e) = none

pub record LayoutState : Type 0 where
  pub offset : ℕ
  pub max_end : ℕ
  pub known : Bool

abbrev pub unknown : LayoutState → LayoutState
unknown s = record s { known = false }

-- The offset goes to `next`, and the extent with it.
abbrev pub advanced : LayoutState → ℕ → LayoutState
advanced s next = record s { offset = next; max_end = max s.max_end next }

abbrev pub advance : String → LayoutState → ℕ → Result LayoutState
advance name s n =
    add_checked s.offset n ("struct layout overflow: " +s name) >>= λ next. ok (advanced s next)

abbrev pub has_length : Option ℕ → Bool
has_length none = false
has_length (some n) = true

abbrev pub is_text : CoreType → Bool
is_text t = str_eq t.name "bytes" || str_eq t.name "string"

abbrev pub offset_field : {F : Type 0} → Field F → LayoutState → Field F
offset_field f s = if s.known then record f { static_offset = some s.offset } else f

abbrev pub extend_at : Option ℕ → Option ℕ → LayoutState → LayoutState
extend_at (some offset) (some inner) s =
    if ltb (size_max - inner) offset
    then unknown s
    else record s { max_end = max s.max_end (offset + inner) }
extend_at _ _ s = unknown s

abbrev pub align_layout : String → Option ℕ → LayoutState → Result LayoutState
align_layout name none s = ok (unknown s)
align_layout name (some a) s =
    if not s.known
    then ok (unknown s)
    else if a == 0
    then err "division by zero"
    else if s.offset % a == 0
    then ok (advanced s s.offset)
    else advance name s (a - s.offset % a)

abbrev pub block_layout : String → Option ℕ → LayoutState → Result LayoutState
block_layout name none s = ok (unknown s)
block_layout name (some n) s = if s.known then advance name s n else ok (unknown s)

-- A field, with the size of its type where that is known.
abbrev pub size_field :
    {F : Type 0} → String → Field F → Option ℕ → LayoutState → Result (Op F × LayoutState)
size_field name f none s = ok (field_op f, unknown s)
size_field name f (some n) s =
    if not (has_length f.static_length) && is_text f.type && not (is_empty f.type.dimensions)
    then ok (field_op f, unknown s)
    else advance name s n >>= λ s'. ok (field_op (record f { static_size = some n }), s')

abbrev pub start : LayoutState
start = record { offset = 0; max_end = 0; known = true }

abbrev pub finished : {F : Type 0} → Struct F → Ops F × LayoutState → Struct F
finished st (members, s) = record st {
  members = members;
  static_size = if s.known then some s.max_end else st.static_size;
}

module _ {F L : Type 0} (p : Plan F) (c : CLibrary F L) where
  -- The loop of `fixedMembersExtent`.
  unfoldable pub extent_from : Ops F → ℕ → ℕ → Result ℕ
  extent_from no_ops cursor max_end = ok max_end
  extent_from (cons_op null_op rest) cursor max_end = err "null plan operation"
  extent_from (cons_op (virtual_op _ _ _) rest) cursor max_end =
      extent_from rest cursor (max max_end cursor)
  extent_from (cons_op (alias_op _ _ _ _) rest) cursor max_end =
      extent_from rest cursor (max max_end cursor)
  extent_from (cons_op (field_op f) rest) cursor max_end = fixed_type_size p c f.type >>= λ n.
      add_checked cursor n overflow >>= λ end. extent_from rest end (max max_end end)
  extent_from (cons_op (bits_op _ _ storage) rest) cursor max_end =
      add_checked cursor storage overflow >>= λ end. extent_from rest end (max max_end end)
  extent_from (cons_op (align_op _ alignment) rest) cursor max_end =
      align_end alignment cursor >>= λ end. extent_from rest end (max max_end end)
  extent_from (cons_op (block_op _ _ static_size _) rest) cursor max_end =
      block_end static_size cursor >>= λ end. extent_from rest end (max max_end end)
  extent_from (cons_op (at_op _ none members) rest) cursor max_end = err ""
  extent_from (cons_op (at_op _ (some offset) members) rest) cursor max_end =
      extent_from members 0 0 >>= λ inner.
      refuse_if (ltb (size_max - inner) offset) overflow
      >> extent_from rest cursor (max max_end (max cursor (offset + inner)))
  extent_from (cons_op (conditional_op _ then_members else_members) rest) cursor max_end =
      extent_from then_members 0 0 >>= λ then_size. extent_from else_members 0 0 >>= λ else_size.
      refuse_if (not (then_size == else_size)) ""
      >> (add_checked cursor then_size overflow >>= λ end. extent_from rest end (max max_end end))
  extent_from (cons_op (variant_op _ _ _ _ _ _) rest) cursor max_end = err ""
  extent_from (cons_op (callback_op _ _ _) rest) cursor max_end = err ""

  unfoldable pub fixed_members_extent : Ops F → Result ℕ
  fixed_members_extent members = extent_from members 0 0

  -- The static offset of an `at`, evaluated with `$next` where there is none yet.
  abbrev pub place_at : Expr → Option ℕ → LayoutState → Option ℕ
  place_at e (some offset) s = some offset
  place_at e none s =
      if is_null e
      then none
      else known_size (evaluate_size_symbol c ((builtin_next_symbol_id, uint s.offset) ∷ []) e)

  abbrev pub placed_at : Expr → Option ℕ → Ops F → LayoutState → Result (Op F × LayoutState)
  placed_at e offset members s =
      ok (at_op e offset members, extend_at offset (known_size (fixed_members_extent members)) s)

  -- One turn of the loop of `computeStructLayout`.
  unfoldable pub layout_op : String → Op F → LayoutState → Result (Op F × LayoutState)
  layout_op name null_op s = err ("null plan operation in struct: " +s name)
  layout_op name (field_op f) s =
      size_field name (offset_field f s) (known_size (fixed_type_size p c f.type)) s
  layout_op name (bits_op fields total storage) s =
      if s.known
      then (advance name s storage >>= λ s'. ok (bits_op fields total storage, s'))
      else ok (bits_op fields total storage, s)
  layout_op name (align_op e a) s = align_layout name a s >>= λ s'. ok (align_op e a, s')
  layout_op name (block_op b e n members) s =
      block_layout name n s >>= λ s'. ok (block_op b e n members, s')
  layout_op name (at_op e offset members) s =
      if s.known
      then placed_at e (place_at e offset s) members s
      else ok (at_op e offset members, s)
  layout_op name (variant_op a b d e f g) s = ok (variant_op a b d e f g, unknown s)
  layout_op name (callback_op a b e) s = ok (callback_op a b e, unknown s)
  layout_op name op s = ok (op, s)

  unfoldable pub layout_ops : String → Ops F → LayoutState → Result (Ops F × LayoutState)
  layout_ops name no_ops s = ok (no_ops, s)
  layout_ops name (cons_op op rest) s = layout_op name op s >>= λ first.
      layout_ops name rest first.1 >>= λ others. ok (cons_op first.0 others.0, others.1)

  unfoldable pub compute_struct_layout : Struct F → Result (Struct F)
  compute_struct_layout st = layout_ops st.name st.members start >>= λ done. ok (finished st done)
