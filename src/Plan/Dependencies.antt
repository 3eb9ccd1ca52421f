-- ===== src/Plan/Dependencies.antt =====
-- plan/PlanBuilder.cpp: a value is declared before an expression uses it. The sets of symbols are
-- lists; where an expression has several faults, the order of the list stands for the set's own
-- order, which decides which of them is the message.
pub mod After
pub mod Before
pub mod Declared
use embx.Prelude.{
  ℕ, String, ◌+s◌, Bool, true, false, not, ◌&&◌, ◌||◌, Option, none, some, List, [], ◌∷◌, ◌++◌, map,
  ◌==◌, str_eq, if◌then◌else◌,
}
use embx.Prelude.Result.{Result, ok, err, ◌>>=◌, ◌>>◌, refuse_if}
use embx.Core.Symbol.{SymbolId, SymbolKind, Symbol, SymbolTable, invalid_symbol_id, valid, find}
use embx.Core.Expr.{ExprKind, ExprType, Expr, null_expr, node, is_next_or_size}
use embx.Core.Types.{Dimension, CoreType}
use embx.Plan.Model.{
  Field, BitsField, Op, null_op, field_op, virtual_op, alias_op, bits_op, variant_op,
  conditional_op, block_op, at_op, align_op, callback_op, Ops, no_ops, cons_op, Cases, no_cases,
  cons_case, Struct, Constant, Enum, EnumItem, Parameter, Plan,
}
use embx.Plan.Visiting.{seen}
use embx.Plan.Sizes.{is_null}

abbrev pub is_identifier : ExprKind → Bool
is_identifier ExprKind.identifier = true
is_identifier _ = false

abbrev pub Found : Type 0
Found = List SymbolId × String

-- What the walk does at a node before its children, given the walk over the children.
abbrev pub visit : ExprKind → String → SymbolId → (Found → Found) → Found → Found
visit k text ref children (ids, error) =
    if not (is_identifier k) || is_next_or_size text
    then children (ids, error)
    else if not (valid ref)
    then (ids, "expression contains unresolved identifier: " +s text)
    else children (ref ∷ ids, error)

unfoldable pub collect_expr_symbols : Expr → Found → Found
collect_expr_symbols null_expr found = found
collect_expr_symbols (node k text op ref type l r) found =
    visit k text ref (λ f. collect_expr_symbols r (collect_expr_symbols l f)) found

unfoldable pub has_constant : {F : Type 0} → SymbolId → List (Constant F) → Bool
has_constant id [] = false
has_constant id (c ∷ cs) = if c.symbol == id then true else has_constant id cs

abbrev pub is_value_kind : SymbolKind → Bool
is_value_kind SymbolKind.field = true
is_value_kind SymbolKind.virtual_field = true
is_value_kind _ = false

abbrev pub is_field : Option Symbol → Bool
is_field none = false
is_field (some s) = elim s.kind [ SymbolKind.field ↦ true | _ ↦ false ]

abbrev pub is_boolean : Expr → Bool
is_boolean (node _ _ _ _ ExprType.boolean _ _) = true
is_boolean _ = false

abbrev item_symbols : {F : Type 0} → List (Enum F) → List SymbolId
item_symbols [] = []
item_symbols (e ∷ es) = map (λ i. i.symbol) e.items ++ item_symbols es

module _ {F : Type 0} (p : Plan F) where
  abbrev pub usable_kind : String → SymbolId → String → SymbolKind → Result (Unit {0})
  usable_kind owner id name SymbolKind.field =
      err (owner +s ": value dependency declared later: " +s name)
  usable_kind owner id name SymbolKind.virtual_field =
      err (owner +s ": value dependency declared later: " +s name)
  usable_kind owner id name SymbolKind.parameter = ok tt
  usable_kind owner id name SymbolKind.enum_item = ok tt
  usable_kind owner id name SymbolKind.constant =
      refuse_if (not (has_constant id p.constants))
        (owner +s ": expression references unavailable constant: " +s name)
  usable_kind owner id name _ =
      err (owner +s ": expression references a non-value symbol: " +s name)

  abbrev pub usable_symbol : String → SymbolId → Option Symbol → Result (Unit {0})
  usable_symbol owner id none = err (owner +s ": expression references unknown SymbolId")
  usable_symbol owner id (some s) = usable_kind owner id s.name s.kind

  unfoldable pub usable : List SymbolId → String → SymbolId → Result (Unit {0})
  usable available owner id =
      if seen id available then ok tt else usable_symbol owner id (find id p.symbol_table)

  unfoldable pub all_usable : List SymbolId → String → List SymbolId → Result (Unit {0})
  all_usable available owner [] = ok tt
  all_usable available owner (id ∷ ids) =
      usable available owner id >> all_usable available owner ids

  abbrev pub checked_ids : List SymbolId → String → Found → Result (Unit {0})
  checked_ids available owner (ids, error) =
      refuse_if (not (str_eq error "")) error >> all_usable available owner ids

  unfoldable pub validate_expr_dependencies : Expr → List SymbolId → String → Result (Unit {0})
  validate_expr_dependencies e available owner =
      checked_ids available owner (collect_expr_symbols e ([], ""))

  unfoldable pub validate_dimensions : List Dimension → List SymbolId → String → Result (Unit {0})
  validate_dimensions [] available owner = ok tt
  validate_dimensions (d ∷ ds) available owner =
      validate_expr_dependencies d.expression available owner
      >> validate_dimensions ds available owner

  abbrev pub validate_type_dependencies : CoreType → List SymbolId → String → Result (Unit {0})
  validate_type_dependencies t available owner = validate_dimensions t.dimensions available owner

  unfoldable pub validate_all : List Expr → List SymbolId → String → Result (Unit {0})
  validate_all [] available owner = ok tt
  validate_all (e ∷ es) available owner =
      validate_expr_dependencies e available owner >> validate_all es available owner

  unfoldable pub bits_dependencies :
      List BitsField → List SymbolId → String → Result (List SymbolId)
  bits_dependencies [] available owner = ok available
  bits_dependencies (b ∷ bs) available owner =
      validate_type_dependencies b.type available (owner +s "." +s b.name)
      >> (refuse_if (b.symbol == invalid_symbol_id)
            (owner +s ": bits field has invalid SymbolId: " +s b.name)
          >> bits_dependencies bs (b.symbol ∷ available) owner)

  unfoldable pub alias_dependencies :
      SymbolId → String → SymbolId → String → List SymbolId → String → Result (List SymbolId)
  alias_dependencies symbol name target target_name available owner =
      refuse_if (symbol == invalid_symbol_id || target == invalid_symbol_id)
        (owner +s ": alias field has invalid SymbolId: " +s name)
      >> (refuse_if (not (is_field (find target p.symbol_table)))
            (owner +s "." +s name +s ": alias target is not a field: " +s target_name)
          >> (refuse_if (not (seen target available))
                (owner +s "." +s name +s ": alias target declared later: " +s target_name)
              >> ok (symbol ∷ available)))

  abbrev pub default_dependencies :
      Option CoreType → Bool → Result (List SymbolId) → List SymbolId → String → Result (Unit {0})
  default_dependencies (some t) has_default members available owner =
      validate_type_dependencies t available owner
  default_dependencies none true members available owner = members >>= λ inner. ok tt
  default_dependencies none false members available owner = ok tt

  -- The result is the set of the symbols that are available behind the members.
  unfoldable mutual
    pub members_dependencies : Ops F → List SymbolId → String → Result (List SymbolId)
    members_dependencies no_ops available owner = ok available
    members_dependencies (cons_op op rest) available owner =
        op_dependencies op available owner >>= λ after. members_dependencies rest after owner

    pub op_dependencies : Op F → List SymbolId → String → Result (List SymbolId)
    op_dependencies null_op available owner = err (owner +s ": null plan operation")
    op_dependencies (virtual_op symbol name e) available owner =
        validate_expr_dependencies e available (owner +s "." +s name)
        >> (refuse_if (symbol == invalid_symbol_id)
              (owner +s ": virtual field has invalid SymbolId: " +s name)
            >> ok (symbol ∷ available))
    op_dependencies (alias_op symbol name target target_name) available owner =
        alias_dependencies symbol name target target_name available owner
    op_dependencies (field_op f) available owner =
        validate_type_dependencies f.type available (owner +s "." +s f.name)
        >> (refuse_if (f.symbol == invalid_symbol_id)
              (owner +s ": field has invalid SymbolId: " +s f.name)
            >> ok (f.symbol ∷ available))
    op_dependencies (bits_op fields _ _) available owner = bits_dependencies fields available owner
    op_dependencies (align_op e _) available owner =
        validate_expr_dependencies e available (owner +s ".<align>") >> ok available
    op_dependencies (at_op e _ members) available owner =
        validate_expr_dependencies e available (owner +s ".<at>")
        >> members_dependencies members available (owner +s ".<at>")
    op_dependencies (block_op _ e _ members) available owner =
        validate_expr_dependencies e available (owner +s ".<block>")
        >> members_dependencies members available (owner +s ".<block>")
    op_dependencies (conditional_op e then_members else_members) available owner =
        validate_expr_dependencies e available (owner +s ".<if>")
        >> (members_dependencies then_members available (owner +s ".<if>") >>= λ inner.
            members_dependencies else_members available (owner +s ".<else>") >>= λ inner'.
            ok available)
    op_dependencies (variant_op name e cases has_default t members) available owner =
        validate_expr_dependencies e available (owner +s "." +s name)
        >> (cases_dependencies cases available (owner +s "." +s name)
            >> (default_dependencies t has_default
                  (members_dependencies members available (owner +s "." +s name)) available
                  (owner +s "." +s name)
                >> ok available))
    op_dependencies (callback_op name _ args) available owner =
        validate_all args available (owner +s "." +s name) >> ok available

    pub cases_dependencies : Cases F → List SymbolId → String → Result (Unit {0})
    cases_dependencies no_cases available owner = ok tt
    cases_dependencies (cons_case _ (some t) members rest) available owner =
        validate_type_dependencies t available owner >> cases_dependencies rest available owner
    cases_dependencies (cons_case _ none members rest) available owner =
        members_dependencies members available owner >>= λ inner.
        cases_dependencies rest available owner

  unfoldable pub requirements_dependencies : List Expr → List SymbolId → String → Result (Unit {0})
  requirements_dependencies [] available name = ok tt
  requirements_dependencies (e ∷ es) available name =
      refuse_if (is_null e) (name +s ": null requires expression")
      >> (refuse_if (not (is_boolean e)) (name +s ": requires expression must be boolean")
          >> (validate_expr_dependencies e available (name +s ".requires")
              >> requirements_dependencies es available name))

  unfoldable pub module_values : List SymbolId
  module_values =
      map (λ (c : Constant F). c.symbol) p.constants
      ++ (map (λ q. q.symbol) p.parameters ++ item_symbols p.enums)

  unfoldable pub structs_dependencies : List (Struct F) → Result (Unit {0})
  structs_dependencies [] = ok tt
  structs_dependencies (s ∷ ss) =
      members_dependencies s.members module_values s.name >>= λ available.
      requirements_dependencies s.requirements available s.name >> structs_dependencies ss

  unfoldable pub validate_layout_dependencies : Result (Unit {0})
  validate_layout_dependencies = structs_dependencies p.structs
