-- ===== src/Plan/TypeBounds.antt =====
-- plan/PlanBuilder.cpp: `layoutBounds` of a type, and the three sizes it gives.
pub mod Fixed
pub mod SameSize
pub mod Fuel
pub mod Order
use embx.Prelude.{
  ℕ, zero, suc, ◌+◌, ◌-◌, ◌*◌, ◌/◌, ◌%◌, ◌^◌, min, max, String, ◌+s◌, Bool, true, false, not, ◌&&◌,
  ◌||◌, Option, none, some, List, [], ◌∷◌, ltb, ◌==◌, str_eq, if◌then◌else◌, length,
}
use embx.Prelude.Result.{Result, ok, err, ◌>>=◌, ◌>>◌, refuse_if}
use embx.Core.CLibrary.{CLibrary}
use embx.Core.Symbol.{SymbolId}
use embx.Core.Types.{TypeKind, DimensionKind, Dimension, CoreType, is_remaining}
use embx.Runtime.Host.{size_max}
use embx.Plan.Model.{Struct, Enum, Alias, Plan, LayoutBounds, is_exact}
use embx.Plan.Sizes.{
  primitive_size, is_empty, find_struct_by_type, find_alias_by_type, find_enum_by_type, out_of_fuel,
  enter, layout_fuel, enum_size,
}
use embx.Plan.Bounds.{bounds, multiply_bounds, dimension_count, start_at, extent, sequence_from}

abbrev pub is_bytes : TypeKind → Bool
is_bytes TypeKind.bytes = true
is_bytes _ = false

abbrev pub one_remaining : List Dimension → Bool
one_remaining (d ∷ []) = is_remaining d.kind
one_remaining _ = false

abbrev pub terminated_max : Option ℕ → ℕ → Result LayoutBounds
terminated_max none marker = err "invalid terminated sequence type"
terminated_max (some payload) marker =
    refuse_if (ltb (size_max - marker) payload) "terminated sequence maximum length overflow"
    >> ok (bounds marker (some (payload + marker)))

-- The bounds of a type with a terminator.
unfoldable pub terminated_bounds : CoreType → Result LayoutBounds
terminated_bounds t =
    refuse_if (not (is_bytes t.kind && is_empty t.dimensions) && not (one_remaining t.dimensions))
      "invalid terminated sequence type"
    >> terminated_max t.max_payload (length t.terminator)

abbrev pub counted : LayoutBounds → Option ℕ → Result LayoutBounds
counted b none = ok (bounds 0 none)
counted b (some n) = multiply_bounds b n

-- The loop over the dimensions.
unfoldable pub dims_bounds :
    {F L : Type 0} → CLibrary F L → LayoutBounds → List Dimension → Result LayoutBounds
dims_bounds c b [] = ok b
dims_bounds c b (d ∷ ds) =
    if is_remaining d.kind
    then dims_bounds c (bounds 0 none) ds
    else dimension_count c d >>= λ n. counted b n >>= λ b'. dims_bounds c b' ds

abbrev pub largest : Option ℕ → Result ℕ
largest none = err "max_size_in_bytes is unbounded"
largest (some n) = ok n

module _ {F : Type 0} (p : Plan F) where
  -- A step into a named type.
  abbrev pub alias_bounds :
      (List SymbolId → CoreType → Result LayoutBounds)
      → List SymbolId
      → CoreType
      → Option Alias
      → Result LayoutBounds
  alias_bounds rec visiting t none = err ("unknown named type in plan: " +s t.name)
  alias_bounds rec visiting t (some a) =
      enter t visiting "cyclic alias in layout bounds: " (λ inner. rec inner a.target)

  abbrev pub enum_bounds :
      (List SymbolId → CoreType → Result LayoutBounds)
      → List SymbolId
      → CoreType
      → Option (Enum F)
      → Result LayoutBounds
  enum_bounds rec visiting t (some e) = enum_size p e >>= λ n. ok (bounds n (some n))
  enum_bounds rec visiting t none = alias_bounds rec visiting t (find_alias_by_type p t)

  abbrev pub struct_bounds :
      (List SymbolId → CoreType → Result LayoutBounds)
      → List SymbolId
      → CoreType
      → Option (Struct F)
      → Result LayoutBounds
  struct_bounds rec visiting t (some s) =
      enter t visiting "cyclic struct reference in layout bounds: "
        (λ inner. sequence_from (rec inner) s.members (start_at 0) >>= λ seq. ok (extent seq))
  struct_bounds rec visiting t none = enum_bounds rec visiting t (find_enum_by_type p t)

  unfoldable pub base_bounds :
      (List SymbolId → CoreType → Result LayoutBounds)
      → List SymbolId
      → CoreType
      → Option ℕ
      → Result LayoutBounds
  base_bounds rec visiting t (some n) = ok (bounds n (some n))
  base_bounds rec visiting t none =
      if str_eq t.name "bytes" || str_eq t.name "string"
      then ok (bounds 1 (some 1))
      else struct_bounds rec visiting t (find_struct_by_type p t)

  module _ {L : Type 0} (c : CLibrary F L) where
    unfoldable pub bounds_step :
        (List SymbolId → CoreType → Result LayoutBounds)
        → List SymbolId
        → CoreType
        → Result LayoutBounds
    bounds_step rec visiting t =
        if not (is_empty t.terminator)
        then terminated_bounds t
        else base_bounds rec visiting t (primitive_size t.name) >>= λ b.
            dims_bounds c b t.dimensions

    -- `layoutBoundsImpl`
    unfoldable pub layout_bounds_from :
        Result LayoutBounds → ℕ → List SymbolId → CoreType → Result LayoutBounds
    layout_bounds_from stop zero visiting t = stop
    layout_bounds_from stop (suc fuel) visiting t =
        bounds_step (layout_bounds_from stop fuel) visiting t

    unfoldable pub layout_bounds : CoreType → Result LayoutBounds
    layout_bounds t = layout_bounds_from (err out_of_fuel) (layout_fuel p) [] t

    unfoldable pub size_in_bytes : CoreType → Result ℕ
    size_in_bytes t = layout_bounds t >>= λ b.
        refuse_if (not (is_exact b)) "size_in_bytes is not statically exact" >> ok b.min_size

    unfoldable pub min_size_in_bytes : CoreType → Result ℕ
    min_size_in_bytes t = layout_bounds t >>= λ b. ok b.min_size

    unfoldable pub max_size_in_bytes : CoreType → Result ℕ
    max_size_in_bytes t = layout_bounds t >>= λ b. largest b.max_size
