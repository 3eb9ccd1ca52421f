-- ===== src/Plan/Sizes.antt =====
-- plan/PlanBuilder.cpp: sizes of types that the plan alone decides. A step into a named type takes one
-- from the fuel, whose end gives `stop`. The set of visited symbols is the same after a call as before
-- it, so it is passed down only. A call that returns false without a message has the message "".
-- What is undefined in the source is an error here: a null operation and a division by zero; a
-- place outside a list has no entry.
pub mod Fuel
use Prim.Native.String.{len, slice}
use embx.Prelude.{
  ℕ, zero, suc, ◌+◌, ◌-◌, ◌*◌, ◌/◌, ◌%◌, ◌^◌, String, ◌+s◌, Bool, true, false, not, ◌&&◌, ◌||◌,
  Option, none, some, List, [], ◌∷◌, ltb, ◌==◌, str_eq, if◌then◌else◌, get_elem?, length,
}
use embx.Prelude.Int.{ℤ, pos, negsuc, ltb_ℤ}
use embx.Prelude.Map.{nat_key, lookup}
use embx.Prelude.Result.{Result, ok, err, ◌>>=◌, ◌>>◌, refuse_if}
use embx.Core.CLibrary.{CLibrary}
use embx.Core.Symbol.{SymbolId, valid}
use embx.Core.Expr.{Expr, null_expr, node}
use embx.Core.Types.{DimensionKind, Dimension, CoreType}
use embx.Runtime.Host.{size_max}
use embx.Runtime.Evaluator.{Value, int, uint, dbl, boolean, evaluate_size_symbol}
use embx.Plan.Model.{
  Field, Op, null_op, field_op, virtual_op, alias_op, bits_op, variant_op, conditional_op, block_op,
  at_op, align_op, callback_op, Ops, no_ops, cons_op, Struct, Enum, Alias, Plan,
}
use embx.Plan.Visiting.{seen}

unfoldable pub primitive_size : String → Option ℕ
primitive_size n =
    if str_eq n "u8" || str_eq n "i8"
    then some 1
    else if str_eq n "u16" || str_eq n "i16"
    then some 2
    else if str_eq n "u32" || str_eq n "i32" || str_eq n "f32"
    then some 4
    else if str_eq n "u64" || str_eq n "i64" || str_eq n "f64"
    then some 8
    else none

unfoldable pub add_checked : ℕ → ℕ → String → Result ℕ
add_checked a b message = refuse_if (ltb (size_max - a) b) message >> ok (a + b)

abbrev pub is_empty {ℓ} : {A : Type ℓ} → List A → Bool
is_empty [] = true
is_empty (_ ∷ _) = false

abbrev pub is_null : Expr → Bool
is_null null_expr = true
is_null (node _ _ _ _ _ _ _) = false

abbrev pub at_index {ℓ} : {A : Type ℓ} → List A → Option ℕ → Option A
at_index l none = none
at_index l (some i) = get_elem? l i

-- The entry of a type's symbol in an index map.
abbrev pub indexed {ℓ} : {A : Type ℓ} → List (SymbolId × ℕ) → List A → CoreType → Option A
indexed index l t = if valid t.reference then at_index l (lookup t.reference index) else none

unfoldable pub find_struct_by_type : {F : Type 0} → Plan F → CoreType → Option (Struct F)
find_struct_by_type p t = indexed p.struct_index_by_symbol p.structs t

unfoldable pub find_alias_by_type : {F : Type 0} → Plan F → CoreType → Option Alias
find_alias_by_type p t = indexed p.alias_index_by_symbol p.aliases t

unfoldable pub find_enum_by_type : {F : Type 0} → Plan F → CoreType → Option (Enum F)
find_enum_by_type p t = indexed p.enum_index_by_symbol p.enums t

abbrev pub is_int : String → Bool
is_int n =
    str_eq n "u8"
    || str_eq n "i8"
    || str_eq n "u16"
    || str_eq n "i16"
    || str_eq n "u32"
    || str_eq n "i32"
    || str_eq n "u64"
    || str_eq n "i64"

abbrev pub out_of_fuel : String
out_of_fuel = "out of fuel"

-- A step into the named type of `t`, refused with a message if it is already being visited.
abbrev pub enter {ℓ} :
    {A : Type ℓ} → CoreType → List SymbolId → String → (List SymbolId → Result A) → Result A
enter t visiting message step =
    if seen t.reference visiting then err (message +s t.name) else step (t.reference ∷ visiting)

-- One turn of the loop over a struct's members.
unfoldable pub fixed_op : {F : Type 0} → (CoreType → Result ℕ) → ℕ → Op F → Result ℕ
fixed_op rec total (alias_op _ _ _ _) = ok total
fixed_op rec total (field_op f) = rec f.type >>= λ n. add_checked total n "fixed layout overflow"
fixed_op rec total (bits_op _ _ storage) = add_checked total storage "fixed layout overflow"
fixed_op rec total (align_op _ none) = err ""
fixed_op rec total (align_op _ (some a)) =
    if a == 0
    then err "division by zero"
    else if total % a == 0
    then ok total
    else add_checked total (a - total % a) "fixed layout overflow"
fixed_op rec total _ = err ""

unfoldable pub fixed_ops : {F : Type 0} → (CoreType → Result ℕ) → ℕ → Ops F → Result ℕ
fixed_ops rec total no_ops = ok total
fixed_ops rec total (cons_op op rest) = fixed_op rec total op >>= λ n. fixed_ops rec n rest

abbrev pub silent : Result ℕ → Result ℕ
silent (ok n) = ok n
silent (err e) = err ""

abbrev pub is_fixed : DimensionKind → Bool
is_fixed DimensionKind.fixed = true
is_fixed _ = false

unfoldable pub fixed_dims : {F L : Type 0} → CLibrary F L → ℕ → List Dimension → Result ℕ
fixed_dims c base [] = ok base
fixed_dims c base (d ∷ ds) =
    refuse_if (not (is_fixed d.kind)) ""
    >> (refuse_if (is_null d.expression) ""
        >> (silent (evaluate_size_symbol c [] d.expression) >>= λ n.
            refuse_if (not (base == 0) && ltb (size_max / base) n) "fixed type size overflow"
            >> fixed_dims c (base * n) ds))

abbrev sized : String → Option ℕ → Result ℕ
sized name none = err ("invalid enum underlying type in plan: " +s name)
sized name (some n) = ok n

module _ {F : Type 0} (p : Plan F) where
  abbrev pub integer_of :
      (List SymbolId → CoreType → Result String)
      → List SymbolId
      → CoreType
      → Option Alias
      → Result String
  integer_of rec visiting t none = err "enum underlying type must resolve to a scalar integer"
  integer_of rec visiting t (some a) =
      enter t visiting "cyclic alias in enum underlying type: " (λ inner. rec inner a.target)

  unfoldable pub integer_step :
      (List SymbolId → CoreType → Result String) → List SymbolId → CoreType → Result String
  integer_step rec visiting t =
      if not (is_empty t.dimensions)
      then err "enum underlying type must be scalar integer"
      else if is_int t.name
      then ok t.name
      else if not (valid t.reference)
      then err "enum underlying type is unresolved"
      else integer_of rec visiting t (find_alias_by_type p t)

  unfoldable pub resolve_integer_primitive :
      Result String → ℕ → List SymbolId → CoreType → Result String
  resolve_integer_primitive stop zero visiting t = stop
  resolve_integer_primitive stop (suc fuel) visiting t =
      integer_step (resolve_integer_primitive stop fuel) visiting t

  unfoldable pub layout_fuel : ℕ
  layout_fuel = length p.struct_index_by_symbol + length p.alias_index_by_symbol + 1

  unfoldable pub enum_size : Enum F → Result ℕ
  enum_size e =
      resolve_integer_primitive (err out_of_fuel) layout_fuel [] e.underlying >>= λ underlying.
      sized e.name (primitive_size underlying)

  module _ {L : Type 0} (c : CLibrary F L) where
    abbrev pub fixed_alias :
        (List SymbolId → CoreType → Result ℕ) → List SymbolId → CoreType → Option Alias → Result ℕ
    fixed_alias rec visiting t none = err ("unknown named type in plan: " +s t.name)
    fixed_alias rec visiting t (some a) =
        enter t visiting "cyclic alias in plan: " (λ inner. rec inner a.target)

    abbrev pub fixed_enum :
        (List SymbolId → CoreType → Result ℕ)
        → List SymbolId
        → CoreType
        → Option (Enum F)
        → Result ℕ
    fixed_enum rec visiting t (some e) = enum_size e
    fixed_enum rec visiting t none = fixed_alias rec visiting t (find_alias_by_type p t)

    unfoldable pub fixed_named :
        (List SymbolId → CoreType → Result ℕ)
        → List SymbolId
        → CoreType
        → Option (Struct F)
        → Result ℕ
    fixed_named rec visiting t (some s) =
        enter t visiting "cyclic struct reference in plan: "
          (λ inner. fixed_ops (rec inner) 0 s.members)
    fixed_named rec visiting t none = fixed_enum rec visiting t (find_enum_by_type p t)

    unfoldable pub fixed_base :
        (List SymbolId → CoreType → Result ℕ) → List SymbolId → CoreType → Option ℕ → Result ℕ
    fixed_base rec visiting t (some n) = ok n
    fixed_base rec visiting t none =
        if str_eq t.name "bytes" || str_eq t.name "string"
        then ok 1
        else fixed_named rec visiting t (find_struct_by_type p t)

    unfoldable pub fixed_step :
        (List SymbolId → CoreType → Result ℕ) → List SymbolId → CoreType → Result ℕ
    fixed_step rec visiting t =
        refuse_if (not (is_empty t.terminator)) ""
        >> (fixed_base rec visiting t (primitive_size t.name) >>= λ base.
            fixed_dims c base t.dimensions)

    unfoldable pub fixed_type_size_from : Result ℕ → ℕ → List SymbolId → CoreType → Result ℕ
    fixed_type_size_from stop zero visiting t = stop
    fixed_type_size_from stop (suc fuel) visiting t =
        fixed_step (fixed_type_size_from stop fuel) visiting t

    unfoldable pub fixed_type_size : CoreType → Result ℕ
    fixed_type_size t = fixed_type_size_from (err out_of_fuel) layout_fuel [] t
