-- ===== src/Plan/Identities.antt =====
-- plan/PlanBuilder.cpp: what a finished plan's expressions, types and groups of bits refer to. The
-- widths of bits fields are natural numbers, so a test for a negative width does not fail.
use embx.Prelude.{
  ℕ, ◌+◌, ◌-◌, ◌/◌, String, ◌+s◌, Bool, true, false, not, ◌&&◌, ◌||◌, Option, none, some, List, [],
  ◌∷◌, ltb, ◌==◌, str_eq, if◌then◌else◌, get_elem?,
}
use embx.Prelude.Map.{nat_key, contains}
use embx.Prelude.Result.{Result, ok, err, ◌>>=◌, ◌>>◌, refuse_if}
use embx.Core.Symbol.{
  SymbolId, SymbolKind, Symbol, SymbolTable, invalid_symbol_id, valid, find, builtin_next_symbol_id,
  builtin_size_in_bytes_symbol_id, builtin_min_size_in_bytes_symbol_id,
  builtin_max_size_in_bytes_symbol_id,
}
use embx.Core.Expr.{ExprType, Expr, null_expr, node}
use embx.Core.Types.{TypeKind, Dimension, CoreType, is_remaining}
use embx.Plan.Model.{BitsField, Plan}
use embx.Plan.Sizes.{is_null}
use embx.Plan.Dependencies.{is_identifier}

abbrev pub Check : Type 0
Check = Result (Unit {0})

abbrev pub expr_type : Expr → ExprType
expr_type null_expr = ExprType.unknown
expr_type (node _ _ _ _ t _ _) = t

abbrev pub is_signed : Expr → Bool
is_signed e = elim (expr_type e) [ ExprType.integer_signed ↦ true | _ ↦ false ]

abbrev pub is_unsigned : Expr → Bool
is_unsigned e = elim (expr_type e) [ ExprType.integer_unsigned ↦ true | _ ↦ false ]

abbrev pub is_kind : SymbolKind → SymbolKind → Bool
is_kind SymbolKind.field SymbolKind.field = true
is_kind SymbolKind.virtual_field SymbolKind.virtual_field = true
is_kind SymbolKind.alias_field SymbolKind.alias_field = true
is_kind SymbolKind.struct SymbolKind.struct = true
is_kind SymbolKind.type_alias SymbolKind.type_alias = true
is_kind SymbolKind.enum SymbolKind.enum = true
is_kind _ _ = false

-- A symbol of this kind was found.
abbrev pub found_as : SymbolKind → Option Symbol → Bool
found_as k none = false
found_as k (some s) = is_kind k s.kind

abbrev pub is_found : Option Symbol → Bool
is_found none = false
is_found (some s) = true

abbrev pub entry_matches : {A : Type 0} → (A → SymbolId) → SymbolId → Option A → Bool
entry_matches symbol_of id none = false
entry_matches symbol_of id (some a) = symbol_of a == id

unfoldable pub validate_index :
    {A : Type 0} → (A → SymbolId) → List A → String → List (SymbolId × ℕ) → Check
validate_index symbol_of l message [] = ok tt
validate_index symbol_of l message ((id, i) ∷ m) =
    refuse_if (not (entry_matches symbol_of id (get_elem? l i))) message
    >> validate_index symbol_of l message m

module _ {F : Type 0} (p : Plan F) where
  abbrev pub table : SymbolTable
  table = p.symbol_table

  abbrev builtin_identity : SymbolId → SymbolId → String → Check
  builtin_identity ref builtin owner =
      refuse_if (not (ref == builtin)) (owner +s ": invalid builtin expression identity")

  abbrev identifier_identity : String → SymbolId → String → Check
  identifier_identity text ref owner =
      if not (valid ref)
      then err (owner +s ": expression has invalid SymbolId: " +s text)
      else if str_eq text "$next"
      then builtin_identity ref builtin_next_symbol_id owner
      else if str_eq text "$size_in_bytes"
      then builtin_identity ref builtin_size_in_bytes_symbol_id owner
      else if str_eq text "$min_size_in_bytes"
      then builtin_identity ref builtin_min_size_in_bytes_symbol_id owner
      else if str_eq text "$max_size_in_bytes"
      then builtin_identity ref builtin_max_size_in_bytes_symbol_id owner
      else refuse_if (not (is_found (find ref table)))
          (owner +s ": expression references unknown SymbolId: " +s text)

  unfoldable pub validate_plan_expr_identity : Expr → String → Check
  validate_plan_expr_identity null_expr owner = ok tt
  validate_plan_expr_identity (node k text op ref type l r) owner =
      (if is_identifier k then identifier_identity text ref owner else ok tt)
      >> (validate_plan_expr_identity l owner >> validate_plan_expr_identity r owner)

  unfoldable pub validate_dimension_identities : List Dimension → String → Check
  validate_dimension_identities [] owner = ok tt
  validate_dimension_identities (d ∷ ds) owner =
      if is_remaining d.kind
      then validate_dimension_identities ds owner
      else refuse_if (is_null d.expression) (owner +s ": dimension has no expression")
        >> (validate_plan_expr_identity d.expression owner
            >> validate_dimension_identities ds owner)

  abbrev pub present : SymbolKind → SymbolKind → List (SymbolId × ℕ) → SymbolId → String → Check
  present wanted kind index id message =
      refuse_if (is_kind wanted kind && not (contains id index)) message

  abbrev pub named_symbol : Option Symbol → SymbolId → String → Check
  named_symbol none id owner = err (owner +s ": named type has unknown SymbolId")
  named_symbol (some s) id owner =
      refuse_if
        (not (is_kind SymbolKind.struct s.kind)
          && not (is_kind SymbolKind.type_alias s.kind)
          && not (is_kind SymbolKind.enum s.kind))
        (owner +s ": named type SymbolId has non-type kind")
      >> (present SymbolKind.struct s.kind p.struct_index_by_symbol id
            (owner +s ": struct type is absent from executable plan")
          >> (present SymbolKind.type_alias s.kind p.alias_index_by_symbol id
                (owner +s ": alias type is absent from executable plan")
              >> present SymbolKind.enum s.kind p.enum_index_by_symbol id
                  (owner +s ": enum type is absent from executable plan")))

  abbrev pub named_identity : TypeKind → SymbolId → String → Check
  named_identity TypeKind.named id owner =
      refuse_if (not (valid id)) (owner +s ": named type has no SymbolId")
      >> named_symbol (find id table) id owner
  named_identity _ id owner = ok tt

  unfoldable pub validate_executable_type : CoreType → String → Check
  validate_executable_type t owner =
      named_identity t.kind t.reference owner >> validate_dimension_identities t.dimensions owner

  abbrev pub symbol_check : SymbolKind → SymbolId → String → String → Check
  symbol_check k id invalid not_executable =
      refuse_if (id == invalid_symbol_id) invalid
      >> refuse_if (not (found_as k (find id table))) not_executable

  -- The loop over a group's fields; the result is the sum of their widths.
  unfoldable pub bits_widths : List BitsField → ℕ → String → Result ℕ
  bits_widths [] total owner = ok total
  bits_widths (f ∷ fs) total owner =
      symbol_check SymbolKind.field f.symbol
        (owner +s ": bits field has invalid SymbolId: " +s f.name)
        (owner +s ": bits field SymbolId is not executable: " +s f.name)
      >> (refuse_if (f.bits == 0 || ltb 64 f.bits || ltb (64 - f.bits) total)
            (owner +s ": bits field width is invalid: " +s f.name)
          >> (validate_executable_type f.type (owner +s "." +s f.name)
              >> bits_widths fs (total + f.bits) owner))

  unfoldable pub validate_bits : List BitsField → ℕ → ℕ → String → Check
  validate_bits fields total_bits storage owner =
      refuse_if (ltb total_bits 1 || ltb 64 total_bits || not (storage == (total_bits + 7) / 8))
        (owner +s ": bits operation has inconsistent width metadata")
      >> (bits_widths fields 0 owner >>= λ total.
          refuse_if (not (total == total_bits))
            (owner +s ": bits width does not match field widths"))
