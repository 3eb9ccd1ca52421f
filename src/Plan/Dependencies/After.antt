-- ===== src/Plan/Dependencies/After.antt =====
-- plan/PlanBuilder.cpp: the symbols that a list of members declares are those that
-- `validateMembersDependencies` adds to the available ones.
use embx.Prelude.{◌≡◌, refl, String, ◌+s◌, not, ◌||◌, List, [], ◌∷◌, ◌==◌}
use embx.Prelude.Result.{Result, ok, ◌>>=◌, ◌>>◌, refuse_if, Yields, >>=-Yields, >>=-Yields_any}
use embx.Core.Symbol.{SymbolId, find, invalid_symbol_id}
use embx.Plan.Model.{
  BitsField, Op, null_op, field_op, virtual_op, alias_op, bits_op, variant_op, conditional_op,
  block_op, at_op, align_op, callback_op, Ops, no_ops, cons_op, Plan,
}
use embx.Plan.Visiting.{seen}
use embx.Plan.Dependencies.{
  is_field, validate_expr_dependencies, validate_type_dependencies, validate_all, bits_dependencies,
  alias_dependencies, default_dependencies, members_dependencies, op_dependencies,
  cases_dependencies,
}

unfoldable pub declare_bits : List BitsField → List SymbolId → List SymbolId
declare_bits [] available = available
declare_bits (b ∷ bs) available = declare_bits bs (b.symbol ∷ available)

-- The symbols that are declared once the members are passed: those of an `at` or a block count, those
-- of a branch do not.
unfoldable mutual
  pub declared : {F : Type 0} → Ops F → List SymbolId → List SymbolId
  declared no_ops available = available
  declared (cons_op op rest) available = declared rest (declare op available)

  pub declare : {F : Type 0} → Op F → List SymbolId → List SymbolId
  declare (virtual_op symbol _ _) available = symbol ∷ available
  declare (alias_op symbol _ _ _) available = symbol ∷ available
  declare (field_op f) available = f.symbol ∷ available
  declare (bits_op fields _ _) available = declare_bits fields available
  declare (at_op _ _ members) available = declared members available
  declare (block_op _ _ _ members) available = declared members available
  declare _ available = available

abbrev pub Is : List SymbolId → List SymbolId → Type 0
Is expected after = after ≡ expected

module _ {F : Type 0} (p : Plan F) where
  guarded :
      (expected : List SymbolId) (guard : Result (Unit {0})) (next : Result (List SymbolId))
      → Yields (Is expected) next
      → Yields (Is expected) (guard >> next)
  guarded expected guard next y =
      >>=-Yields_any (Is expected) guard (λ (_ : Unit {0}). next) (λ _. y)

  guard-Is :
      (expected : List SymbolId) (first second : Result (Unit {0}))
      → Yields (Is expected) (first >> (second >> ok expected))
  guard-Is expected first second =
      guarded expected first (second >> ok expected) (guarded expected second (ok expected) refl)

  bits-declared :
      (fields : List BitsField) (available : List SymbolId) (owner : String)
      → Yields (Is (declare_bits fields available)) (bits_dependencies p fields available owner)
  unfolding bits_dependencies declare_bits
  bits-declared [] available owner = refl
  bits-declared (b ∷ bs) available owner =
      let next = bits_dependencies p bs (b.symbol ∷ available) owner in
      let check : Result (Unit {0}) =
        refuse_if (b.symbol == invalid_symbol_id)
          (owner +s ": bits field has invalid SymbolId: " +s b.name) in
      guarded (declare_bits bs (b.symbol ∷ available))
        (validate_type_dependencies p b.type available (owner +s "." +s b.name)) (check >> next)
        (guarded (declare_bits bs (b.symbol ∷ available)) check next
          (bits-declared bs (b.symbol ∷ available) owner))

  mutual
    unfolding members_dependencies op_dependencies alias_dependencies declared declare

    members-declared :
        (ops : Ops F) (available : List SymbolId) (owner : String)
        → Yields (Is (declared ops available)) (members_dependencies p ops available owner)
    members-declared no_ops available owner = refl
    members-declared (cons_op op rest) available owner =
        >>=-Yields (Is (declare op available)) (Is (declared rest (declare op available)))
          (op_dependencies p op available owner) (λ after. members_dependencies p rest after owner)
          (op-declared op available owner)
          (λ after e. rw e (members-declared rest (declare op available) owner))

    pub op-declared :
        (op : Op F) (available : List SymbolId) (owner : String)
        → Yields (Is (declare op available)) (op_dependencies p op available owner)
    op-declared null_op available owner = tt
    op-declared (virtual_op symbol name e) available owner =
        guard-Is (symbol ∷ available)
          (validate_expr_dependencies p e available (owner +s "." +s name))
          (refuse_if (symbol == invalid_symbol_id)
            (owner +s ": virtual field has invalid SymbolId: " +s name))
    op-declared (alias_op symbol name target target_name) available owner =
        let known : Result (Unit {0}) =
          refuse_if (symbol == invalid_symbol_id || target == invalid_symbol_id)
            (owner +s ": alias field has invalid SymbolId: " +s name) in
        let is_target : Result (Unit {0}) =
          refuse_if (not (is_field (find target p.symbol_table)))
            (owner +s "." +s name +s ": alias target is not a field: " +s target_name) in
        let before : Result (Unit {0}) =
          refuse_if (not (seen target available))
            (owner +s "." +s name +s ": alias target declared later: " +s target_name) in
        guarded (symbol ∷ available) known (is_target >> (before >> ok (symbol ∷ available)))
          (guard-Is (symbol ∷ available) is_target before)
    op-declared (field_op f) available owner =
        guard-Is (f.symbol ∷ available)
          (validate_type_dependencies p f.type available (owner +s "." +s f.name))
          (refuse_if (f.symbol == invalid_symbol_id)
            (owner +s ": field has invalid SymbolId: " +s f.name))
    op-declared (bits_op fields a b) available owner = bits-declared fields available owner
    op-declared (align_op e a) available owner =
        guarded available (validate_expr_dependencies p e available (owner +s ".<align>"))
          (ok available) refl
    op-declared (at_op e o members) available owner =
        guarded (declared members available)
          (validate_expr_dependencies p e available (owner +s ".<at>"))
          (members_dependencies p members available (owner +s ".<at>"))
          (members-declared members available (owner +s ".<at>"))
    op-declared (block_op b e o members) available owner =
        guarded (declared members available)
          (validate_expr_dependencies p e available (owner +s ".<block>"))
          (members_dependencies p members available (owner +s ".<block>"))
          (members-declared members available (owner +s ".<block>"))
    op-declared (conditional_op e a b) available owner =
        let others = members_dependencies p b available (owner +s ".<else>") in
        guarded available (validate_expr_dependencies p e available (owner +s ".<if>"))
          (members_dependencies p a available (owner +s ".<if>") >>= λ inner.
            others >>= λ inner'. ok available)
          (>>=-Yields_any (Is available) (members_dependencies p a available (owner +s ".<if>"))
            (λ inner. others >>= λ inner'. ok available)
            (λ inner.
              >>=-Yields_any (Is available) others (λ inner'. ok available) (λ inner'. refl)))
    op-declared (variant_op a b d e f g) available owner =
        let cases = cases_dependencies p d available (owner +s "." +s a) in
        let default =
          default_dependencies p f e (members_dependencies p g available (owner +s "." +s a))
            available (owner +s "." +s a) in
        guarded available (validate_expr_dependencies p b available (owner +s "." +s a))
          (cases >> (default >> ok available)) (guard-Is available cases default)
    op-declared (callback_op name d args) available owner =
        guarded available (validate_all p args available (owner +s "." +s name)) (ok available) refl
