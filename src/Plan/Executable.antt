-- ===== src/Plan/Executable.antt =====
-- plan/PlanBuilder.cpp: the checks that a finished plan passes before it is run.
pub mod Known
use embx.Prelude.{
  ℕ, ◌+◌, ◌-◌, ◌/◌, ◌^◌, String, ◌+s◌, Bool, true, false, not, ◌&&◌, ◌||◌, Option, none, some, List,
  [], ◌∷◌, ltb, ◌==◌, str_eq, if◌then◌else◌, get_elem?,
}
use embx.Prelude.Int.{ℤ, pos, negsuc, ltb_ℤ}
use embx.Prelude.Map.{nat_key, contains}
use embx.Prelude.Result.{Result, ok, err, ◌>>=◌, ◌>>◌, refuse_if}
use embx.Core.Symbol.{
  SymbolId, SymbolKind, Symbol, SymbolTable, invalid_symbol_id, valid, find, builtin_next_symbol_id,
  builtin_size_in_bytes_symbol_id, builtin_min_size_in_bytes_symbol_id,
  builtin_max_size_in_bytes_symbol_id,
}
use embx.Core.Expr.{ExprKind, ExprType, Expr, null_expr, node}
use embx.Core.Types.{TypeKind, Dimension, CoreType, is_remaining}
use embx.Runtime.Host.{to_uint64, size_max}
use embx.Runtime.Evaluator.{Value, int, uint, dbl, boolean}
use embx.Plan.Model.{
  Field, BitsField, Op, null_op, field_op, virtual_op, alias_op, bits_op, variant_op,
  conditional_op, block_op, at_op, align_op, callback_op, Ops, no_ops, cons_op, Cases, no_cases,
  cons_case, Struct, Enum, Alias, Plan,
}
use embx.Plan.Sizes.{is_null}
use embx.Plan.Identities.{
  Check, expr_type, is_signed, is_unsigned, is_kind, found_as, is_found, entry_matches,
  validate_index, table, present, named_symbol, named_identity, validate_plan_expr_identity,
  validate_dimension_identities, validate_executable_type, symbol_check, bits_widths, validate_bits,
}
use embx.Plan.Dependencies.{is_identifier, is_boolean}

abbrev pub Tags : Type 0
Tags = List (Bool × ℕ)

abbrev pub tag_seen : Bool × ℕ → Tags → Bool
tag_seen t [] = false
tag_seen t (v ∷ vs) =
    if ((v.0 && t.0) || (not v.0 && not t.0)) && (v.1 == t.1) then true else tag_seen t vs

-- Whether a case's tag is negative, which is its sign in the source, and its word.
unfoldable pub tag_key : {F : Type 0} → Value F → Expr → String → Result (Bool × ℕ)
tag_key (int v) discriminator owner =
    refuse_if (is_unsigned discriminator && ltb_ℤ v (pos 0)) (owner +s ": case tag out of range")
    >> ok (ltb_ℤ v (pos 0), to_uint64 v)
tag_key (uint v) discriminator owner =
    refuse_if (is_signed discriminator && ltb (2 ^ 63 - 1) v) (owner +s ": case tag out of range")
    >> ok (false, v)
tag_key _ discriminator owner = err (owner +s ": case tag is not integer")

abbrev pub oversized : Option ℕ → String → Check
oversized none owner = ok tt
oversized (some n) owner = refuse_if (ltb size_max n) (owner +s ": invalid block size")

module _ {F : Type 0} (p : Plan F) where
  unfoldable pub validate_arguments : List Expr → String → Check
  validate_arguments [] owner = ok tt
  validate_arguments (e ∷ es) owner =
      refuse_if (is_null e) (owner +s ": null callback argument")
      >> (validate_plan_expr_identity p e owner >> validate_arguments es owner)

  abbrev unaligned : Expr → Option ℕ → Bool
  unaligned e none = true
  unaligned e (some a) = is_null e || a == 0

  abbrev pub default_check : Bool → Option CoreType → Check → String → Check
  default_check false t members owner = ok tt
  default_check true (some t) members owner = validate_executable_type p t owner
  default_check true none members owner = members

  unfoldable pub validate_field : Field F → String → Check
  validate_field f owner =
      symbol_check p SymbolKind.field f.symbol (owner +s ": field has invalid SymbolId: " +s f.name)
        (owner +s ": field SymbolId is not executable: " +s f.name)
      >> validate_executable_type p f.type (owner +s "." +s f.name)

  unfoldable pub validate_virtual : SymbolId → String → Expr → String → Check
  validate_virtual symbol name e owner =
      symbol_check p SymbolKind.virtual_field symbol
        (owner +s ": virtual field has invalid SymbolId: " +s name)
        (owner +s ": virtual field SymbolId is not executable: " +s name)
      >> (refuse_if (is_null e) (owner +s ": virtual field has no expression: " +s name)
          >> validate_plan_expr_identity p e (owner +s "." +s name))

  unfoldable pub validate_alias : SymbolId → String → SymbolId → String → String → Check
  validate_alias symbol name target target_name owner =
      refuse_if (symbol == invalid_symbol_id || target == invalid_symbol_id)
        (owner +s ": alias field has invalid SymbolId: " +s name)
      >> (refuse_if (not (found_as SymbolKind.alias_field (find symbol (table p))))
            (owner +s ": alias field SymbolId is not executable: " +s name)
          >> refuse_if (not (found_as SymbolKind.field (find target (table p))))
              (owner +s ": alias target is not a field: " +s target_name))

  unfoldable mutual
    pub validate_members : Ops F → String → Check
    validate_members no_ops owner = ok tt
    validate_members (cons_op op rest) owner = validate_op op owner >> validate_members rest owner

    pub validate_op : Op F → String → Check
    validate_op null_op owner = err (owner +s ": null executable operation")
    validate_op (virtual_op symbol name e) owner = validate_virtual symbol name e owner
    validate_op (alias_op symbol name target target_name) owner =
        validate_alias symbol name target target_name owner
    validate_op (field_op f) owner = validate_field f owner
    validate_op (bits_op fields total_bits storage) owner =
        validate_bits p fields total_bits storage owner
    validate_op (conditional_op e then_members else_members) owner =
        refuse_if (is_null e) (owner +s ": conditional has no condition")
        >> (refuse_if (not (is_boolean e)) (owner +s ": conditional condition is not boolean")
            >> (validate_plan_expr_identity p e (owner +s ".<if>")
                >> (validate_members then_members (owner +s ".<if>")
                    >> validate_members else_members (owner +s ".<else>"))))
    validate_op (variant_op name e cases has_default t members) owner =
        refuse_if (is_null e) (owner +s ": variant has no discriminator")
        >> (validate_plan_expr_identity p e (owner +s "." +s name)
            >> (refuse_if (not (is_signed e) && not (is_unsigned e))
                  (owner +s "." +s name +s ": discriminator is not integer")
                >> (validate_cases cases [] e (owner +s "." +s name)
                    >> default_check has_default t
                        (validate_members members (owner +s "." +s name +s ".default"))
                        (owner +s "." +s name +s ".default"))))
    validate_op (block_op name e static_size members) owner =
        refuse_if (is_null e) (owner +s ": block has no size expression")
        >> (validate_plan_expr_identity p e (owner +s ".<block>")
            >> (oversized static_size owner >> validate_members members (owner +s ".<block>")))
    validate_op (at_op e static_offset members) owner =
        refuse_if (is_null e) (owner +s ": at has no offset expression")
        >> (validate_plan_expr_identity p e (owner +s ".<at>")
            >> validate_members members (owner +s ".<at>"))
    validate_op (align_op e alignment) owner =
        refuse_if (unaligned e alignment) (owner +s ": align is not finalized")
        >> validate_plan_expr_identity p e (owner +s ".<align>")
    validate_op (callback_op name direction args) owner =
        refuse_if (str_eq name "") (owner +s ": callback has no name")
        >> validate_arguments args (owner +s "." +s name)

    -- The loop over the cases, with the tags seen so far.
    pub validate_cases : Cases F → Tags → Expr → String → Check
    validate_cases no_cases tags e owner = ok tt
    validate_cases (cons_case tag t members rest) tags e owner = tag_key tag e owner >>= λ key.
        refuse_if (tag_seen key tags) (owner +s ": duplicate variant tag")
        >> (default_check true t (validate_members members owner) owner
            >> validate_cases rest (key ∷ tags) e owner)

  unfoldable pub validate_requirements : List Expr → String → Check
  validate_requirements [] name = ok tt
  validate_requirements (e ∷ es) name =
      refuse_if (is_null e) ("struct " +s name +s ": null requires expression")
      >> (refuse_if (not (is_boolean e))
            ("struct " +s name +s ": requires expression must be boolean")
          >> (validate_plan_expr_identity p e ("struct " +s name +s ".requires")
              >> validate_requirements es name))

  unfoldable pub validate_structs : List (Struct F) → Check
  validate_structs [] = ok tt
  validate_structs (s ∷ ss) =
      refuse_if (s.symbol == invalid_symbol_id)
        ("executable struct has invalid SymbolId: " +s s.name)
      >> (validate_requirements s.requirements s.name
          >> (validate_members s.members ("struct " +s s.name) >> validate_structs ss))

  unfoldable pub validate_executable_plan : Check
  validate_executable_plan =
      validate_index (λ (s : Struct F). s.symbol) p.structs "struct index does not match SymbolId"
        p.struct_index_by_symbol
      >> (validate_index (λ (a : Alias). a.symbol) p.aliases "alias index does not match SymbolId"
            p.alias_index_by_symbol
          >> (validate_index (λ (e : Enum F). e.symbol) p.enums "enum index does not match SymbolId"
                p.enum_index_by_symbol
              >> validate_structs p.structs))
