-- ===== src/Plan/Dependencies/Declared.antt =====
-- plan/PlanBuilder.cpp: the order of declaration and use.
use embx.Prelude.{
  ◌≡◌, arith, String, ◌+s◌, Bool, true, false, ◌||◌, Option, none, some, List, [], ◌∷◌, ◌++◌, map,
  inl, inr, Bool-cases,
}
use embx.Prelude.Result.{Result, ok, >>=-eq-ok, Yields-ok}
use embx.Core.Symbol.{SymbolId, Symbol, find}
use embx.Core.Expr.{Expr}
use embx.Core.Types.{Dimension, CoreType}
use embx.Plan.Model.{
  Op, null_op, field_op, virtual_op, alias_op, bits_op, variant_op, conditional_op, block_op, at_op,
  align_op, callback_op, Ops, no_ops, cons_op, Cases, no_cases, cons_case, Plan,
}
use embx.Plan.Visiting.{seen}
use embx.Plan.Dependencies.{
  is_value_kind, validate_expr_dependencies, validate_type_dependencies, validate_dimensions,
  validate_all, members_dependencies, op_dependencies, cases_dependencies, default_dependencies,
}
use embx.Plan.Dependencies.After.{declared, declare, Is, op-declared}
use embx.Plan.Dependencies.Before.{uses, value-available}

abbrev pub type_exprs : CoreType → List Expr
type_exprs t = map (λ d. d.expression) t.dimensions

-- The types of a variant's cases, and that of its default, stand for a member each.
abbrev pub case_exprs : {F : Type 0} → Cases F → List Expr
case_exprs no_cases = []
case_exprs (cons_case _ (some t) _ rest) = type_exprs t ++ case_exprs rest
case_exprs (cons_case _ none _ rest) = case_exprs rest

abbrev pub default_exprs : Option CoreType → List Expr
default_exprs (some t) = type_exprs t
default_exprs none = []

-- The expressions of a member itself, those of its types included: not those of the members in it,
-- nor those of the types in a group of bits.
abbrev pub own_exprs : {F : Type 0} → Op F → List Expr
own_exprs (virtual_op _ _ e) = e ∷ []
own_exprs (field_op f) = type_exprs f.type
own_exprs (align_op e _) = e ∷ []
own_exprs (at_op e _ _) = e ∷ []
own_exprs (block_op _ e _ _) = e ∷ []
own_exprs (conditional_op e _ _) = e ∷ []
own_exprs (variant_op _ e cases _ t _) = e ∷ (case_exprs cases ++ default_exprs t)
own_exprs (callback_op _ _ args) = args
own_exprs _ = []

unfoldable pub any_uses : SymbolId → List Expr → Bool
any_uses id [] = false
any_uses id (e ∷ es) = uses id e || any_uses id es

unfoldable pub append_ops : {F : Type 0} → Ops F → Ops F → Ops F
append_ops no_ops more = more
append_ops (cons_op op rest) more = cons_op op (append_ops rest more)

module _ {F : Type 0} (p : Plan F) where
  -- The members before `op` are accepted, and `op` behind them.
  op-accepted :
      (before : Ops F) (op : Op F) (rest : Ops F) (available : List SymbolId) (owner : String)
      {after : List SymbolId}
      → members_dependencies p (append_ops before (cons_op op rest)) available owner ≡ ok after
      → (m : List SymbolId) × (op_dependencies p op (declared before available) owner ≡ ok m)
  unfolding members_dependencies append_ops declared
  op-accepted no_ops op rest available owner h =
      let (m, one, others) =
        >>=-eq-ok (op_dependencies p op available owner) (λ m. members_dependencies p rest m owner)
          h in
      (m, one)
  op-accepted (cons_op first before) op rest available owner h =
      let (m, one, others) =
        >>=-eq-ok (op_dependencies p first available owner)
          (λ m. members_dependencies p (append_ops before (cons_op op rest)) m owner) h in
      let e : m ≡ declare first available =
        Yields-ok (Is (declare first available)) _ (op-declared p first available owner) one in
      let below = op-accepted before op rest m owner others in rw e at below

  abbrev Usable : SymbolId → List SymbolId → List Expr → Type 0
  Usable id available es = any_uses id es ≡ true → seen id available ≡ true

  module _ (available : List SymbolId) (id : SymbolId) {s : Symbol}
      (found : find id p.symbol_table ≡ some s) (value : is_value_kind s.kind ≡ true) where
    one-Usable :
        (e : Expr) (owner : String)
        → validate_expr_dependencies p e available owner ≡ ok tt
        → Usable id available (e ∷ [])
    unfolding any_uses
    one-Usable e owner h u = value-available p e available owner id h (ground arith) found value

    more-Usable :
        (e : Expr) (es : List Expr) (owner : String)
        → validate_expr_dependencies p e available owner ≡ ok tt
        → Usable id available es
        → Usable id available (e ∷ es)
    unfolding any_uses
    more-Usable e es owner h later u = elim (Bool-cases (uses id e)) [
      | inl here ↦ value-available p e available owner id h here found value
      | inr absent ↦ later (ground arith)
    ]

    all-Usable :
        (es : List Expr) (owner : String)
        → validate_all p es available owner ≡ ok tt
        → Usable id available es
    unfolding validate_all any_uses
    all-Usable [] owner h = λ u. cc
    all-Usable (e ∷ es) owner h =
        let (t, one, others) =
          >>=-eq-ok (validate_expr_dependencies p e available owner)
            (λ (_ : Unit {0}). validate_all p es available owner) h in
        more-Usable e es owner one (all-Usable es owner others)

    dimensions-Usable :
        (ds : List Dimension) (owner : String)
        → validate_dimensions p ds available owner ≡ ok tt
        → Usable id available (map (λ d. d.expression) ds)
    unfolding validate_dimensions any_uses
    dimensions-Usable [] owner h = λ u. cc
    dimensions-Usable (d ∷ ds) owner h =
        let (t, one, others) =
          >>=-eq-ok (validate_expr_dependencies p d.expression available owner)
            (λ (_ : Unit {0}). validate_dimensions p ds available owner) h in
        more-Usable d.expression (map (λ d. d.expression) ds) owner one
          (dimensions-Usable ds owner others)

    append-Usable :
        (es more : List Expr)
        → Usable id available es
        → Usable id available more
        → Usable id available (es ++ more)
    unfolding any_uses
    append-Usable [] more h k u = k u
    append-Usable (e ∷ es) more h k u =
        let both = append-Usable es more (λ v. h (ground arith)) k in ground (arith, both)

    cases-Usable :
        (cases : Cases F) (owner : String)
        → cases_dependencies p cases available owner ≡ ok tt
        → Usable id available (case_exprs cases)
    unfolding cases_dependencies any_uses
    cases-Usable no_cases owner h = λ u. cc
    cases-Usable (cons_case b (some t) members rest) owner h =
        let (checked, one, others) =
          >>=-eq-ok (validate_type_dependencies p t available owner)
            (λ (_ : Unit {0}). cases_dependencies p rest available owner) h in
        append-Usable (type_exprs t) (case_exprs rest) (dimensions-Usable t.dimensions owner one)
          (cases-Usable rest owner others)
    cases-Usable (cons_case b none members rest) owner h =
        let (inner, one, others) =
          >>=-eq-ok (members_dependencies p members available owner)
            (λ inner. cases_dependencies p rest available owner) h in
        cases-Usable rest owner others

    default-Usable :
        (t : Option CoreType) (b : Bool) (members : Result (List SymbolId)) (owner : String)
        → default_dependencies p t b members available owner ≡ ok tt
        → Usable id available (default_exprs t)
    unfolding any_uses
    default-Usable (some t) b members owner h = dimensions-Usable t.dimensions owner h
    default-Usable none b members owner h = λ u. cc

    variant-Usable :
        (name : String) (e : Expr) (cases : Cases F) (b : Bool) (t : Option CoreType)
        (members : Ops F) (owner : String) {m : List SymbolId}
        → op_dependencies p (variant_op name e cases b t members) available owner ≡ ok m
        → Usable id available (e ∷ (case_exprs cases ++ default_exprs t))
    unfolding op_dependencies
    variant-Usable name e cases b t members owner h =
        let inside = owner +s "." +s name in
        let (u, one, rest) = >>=-eq-ok (validate_expr_dependencies p e available inside) _ h in
        let (v, two, last) = >>=-eq-ok (cases_dependencies p cases available inside) _ rest in
        let (w, three, end) =
          >>=-eq-ok
            (default_dependencies p t b (members_dependencies p members available inside) available
              inside)
            _ last in
        more-Usable e (case_exprs cases ++ default_exprs t) inside one (
          append-Usable (case_exprs cases) (default_exprs t) (cases-Usable cases inside two)
            (default-Usable t b (members_dependencies p members available inside) inside three))

    own-Usable :
        (op : Op F) (owner : String) {m : List SymbolId}
        → op_dependencies p op available owner ≡ ok m
        → Usable id available (own_exprs op)
    unfolding op_dependencies any_uses
    own-Usable null_op owner h = λ u. cc
    own-Usable (virtual_op symbol name e) owner h =
        let (t, one, others) =
          >>=-eq-ok (validate_expr_dependencies p e available (owner +s "." +s name)) _ h in
        one-Usable e _ one
    own-Usable (alias_op a b d e) owner h = λ u. cc
    own-Usable (field_op f) owner h =
        let (t, one, others) =
          >>=-eq-ok (validate_type_dependencies p f.type available (owner +s "." +s f.name)) _ h in
        dimensions-Usable f.type.dimensions _ one
    own-Usable (bits_op a b d) owner h = λ u. cc
    own-Usable (align_op e a) owner h =
        let (t, one, others) =
          >>=-eq-ok (validate_expr_dependencies p e available (owner +s ".<align>")) _ h in
        one-Usable e _ one
    own-Usable (at_op e a b) owner h =
        let (t, one, others) =
          >>=-eq-ok (validate_expr_dependencies p e available (owner +s ".<at>")) _ h in
        one-Usable e _ one
    own-Usable (block_op a e b d) owner h =
        let (t, one, others) =
          >>=-eq-ok (validate_expr_dependencies p e available (owner +s ".<block>")) _ h in
        one-Usable e _ one
    own-Usable (conditional_op e a b) owner h =
        let (t, one, others) =
          >>=-eq-ok (validate_expr_dependencies p e available (owner +s ".<if>")) _ h in
        one-Usable e _ one
    own-Usable (variant_op name e cases b t members) owner h =
        variant-Usable name e cases b t members owner h
    own-Usable (callback_op name d args) owner h =
        let (t, one, others) =
          >>=-eq-ok (validate_all p args available (owner +s "." +s name)) _ h in
        all-Usable args _ one

-- Where `validateMembersDependencies` accepts a list of members, a field or a virtual field that an
-- expression of a member itself, those of its types and of a variant's case and default types
-- included (not of the members in it, nor of the types in a group of bits), refers to is
-- available before the list, or a member before this one in the list declares it.
pub members_dependencies-declared :
    {F : Type 0} (p : Plan F) (before : Ops F) (op : Op F) (rest : Ops F)
    (available : List SymbolId) (owner : String) (id : SymbolId) {after : List SymbolId}
    {s : Symbol}
    → members_dependencies p (append_ops before (cons_op op rest)) available owner ≡ ok after
    → any_uses id (own_exprs op) ≡ true
    → find id p.symbol_table ≡ some s
    → is_value_kind s.kind ≡ true
    → seen id (declared before available) ≡ true
members_dependencies-declared p before op rest available owner id h u found value =
    let (m, accepted) = op-accepted p before op rest available owner h in
    own-Usable p (declared before available) id found value op owner accepted u
