-- ===== src/Plan/Dependencies/Before.antt =====
-- plan/PlanBuilder.cpp: an accepted member uses only values that were declared before it.
use Prim.Native.String.{len}
use text.Mathlib.TextPositions.{len-append}
use embx.Prelude.{
  ap, ◌≢◌, ◌≡◌, refl, arith, String, ◌+s◌, Bool, true, false, not, ◌&&◌, ◌||◌, some, List, [], ◌∷◌,
  ◌==◌, str_eq, str_eq_iff, inl, inr, Bool-cases,
}
use embx.Prelude.Result.{ok, >>=-eq-ok, refuse_if-eq-ok}
use embx.Core.Symbol.{SymbolId, SymbolKind, Symbol, valid, find}
use embx.Core.Expr.{Expr, null_expr, node, is_next_or_size}
use embx.Plan.Model.{Plan}
use embx.Plan.Visiting.{seen}
use embx.Plan.Dependencies.{
  Found, is_identifier, collect_expr_symbols, is_value_kind, usable_kind, usable_symbol, usable,
  all_usable, validate_expr_dependencies,
}

-- An identifier of the expression, other than a built-in, refers to `id`.
unfoldable pub uses : SymbolId → Expr → Bool
uses id null_expr = false
uses id (node k text op ref type l r) =
    (is_identifier k && not (is_next_or_size text) && (ref == id)) || (uses id l || uses id r)

unresolved-message : (text : String) → "expression contains unresolved identifier: " +s text ≢ ""
unresolved-message text h =
    let lengths : len ("expression contains unresolved identifier: " +s text) ≡ 0 = ap len h in
    let sum = len-append "expression contains unresolved identifier: " text in
    let some_text : len "expression contains unresolved identifier: " ≡ 43 = refl in omega arith

seen-head : (id v : SymbolId) (vs : List SymbolId) → (v == id) ≡ true → seen id (v ∷ vs) ≡ true
unfolding seen
seen-head id v vs h = ground arith

seen-tail : (id v : SymbolId) (vs : List SymbolId) → seen id vs ≡ true → seen id (v ∷ vs) ≡ true
unfolding seen
seen-tail id v vs h = ground arith

-- No fault was found before, and none is found by a walk that reports none.
no_fault : (e : Expr) (found : Found) → (collect_expr_symbols e found).1 ≡ "" → found.1 ≡ ""
unfolding collect_expr_symbols
no_fault null_expr found h = h
no_fault (node k text op ref type l r) (ids, error) h =
    elim (Bool-cases (not (is_identifier k) || is_next_or_size text)) [
      | inl plain ↦
          no_fault l (ids, error) (no_fault r (collect_expr_symbols l (ids, error)) (rw plain at h))
      | inr name ↦ elim (Bool-cases (valid ref)) [
        | inl good ↦
            no_fault l (ref ∷ ids, error)
              (no_fault r (collect_expr_symbols l (ref ∷ ids, error)) (rw (name, good) at h))
        | inr bad ↦
            let message : "expression contains unresolved identifier: " +s text ≡ "" =
              rw (name, bad) at h in
            absurd (unresolved-message text message)
      ]
    ]

seen-keeps :
    (e : Expr) (found : Found) (id : SymbolId)
    → seen id found.0 ≡ true
    → seen id (collect_expr_symbols e found).0 ≡ true
unfolding collect_expr_symbols
seen-keeps null_expr found id h = h
seen-keeps (node k text op ref type l r) (ids, error) id h =
    elim (Bool-cases (not (is_identifier k) || is_next_or_size text)) [
      | inl plain ↦
          rw plain
            (seen-keeps r (collect_expr_symbols l (ids, error)) id (seen-keeps l (ids, error) id h))
      | inr name ↦ elim (Bool-cases (valid ref)) [
        | inl good ↦
            rw (name, good)
              (seen-keeps r (collect_expr_symbols l (ref ∷ ids, error)) id
                (seen-keeps l (ref ∷ ids, error) id (seen-tail id ref ids h)))
        | inr bad ↦ rw (name, bad) h
      ]
    ]

abbrev Collected : SymbolId → Expr → Type 0
Collected id e =
    (f : Found)
    → uses id e ≡ true
    → (collect_expr_symbols e f).1 ≡ ""
    → seen id (collect_expr_symbols e f).0 ≡ true

children-Collected :
    (l r : Expr) (id : SymbolId)
    → Collected id l
    → Collected id r
    → (f : Found) → (uses id l || uses id r) ≡ true
    → (collect_expr_symbols r (collect_expr_symbols l f)).1 ≡ ""
    → seen id (collect_expr_symbols r (collect_expr_symbols l f)).0 ≡ true
children-Collected l r id left right f below h = elim (Bool-cases (uses id l)) [
  | inl here ↦
      seen-keeps r (collect_expr_symbols l f) id
        (left f here (no_fault r (collect_expr_symbols l f) h))
  | inr absent ↦ right (collect_expr_symbols l f) (ground arith) h
]

uses-collected :
    (e : Expr) (found : Found) (id : SymbolId)
    → uses id e ≡ true
    → (collect_expr_symbols e found).1 ≡ ""
    → seen id (collect_expr_symbols e found).0 ≡ true
unfolding uses collect_expr_symbols
uses-collected null_expr found id u h = cc
uses-collected (node k text op ref type l r) (ids, error) id u h =
    elim (Bool-cases (not (is_identifier k) || is_next_or_size text)) [
      | inl plain ↦
          let below : (uses id l || uses id r) ≡ true = ground arith in
          rw plain (
            children-Collected l r id (λ f. uses-collected l f id) (λ f. uses-collected r f id)
              (ids, error) below (rw plain at h))
      | inr name ↦ elim (Bool-cases (valid ref)) [
        | inr bad ↦
            let message : "expression contains unresolved identifier: " +s text ≡ "" =
              rw (name, bad) at h in
            absurd (unresolved-message text message)
        | inl good ↦
            let h' : (collect_expr_symbols r (collect_expr_symbols l (ref ∷ ids, error))).1 ≡ "" =
              rw (name, good) at h in
            elim (Bool-cases (ref == id)) [
              | inl here ↦
                  rw (name, good)
                    (seen-keeps r (collect_expr_symbols l (ref ∷ ids, error)) id
                      (seen-keeps l (ref ∷ ids, error) id (seen-head id ref ids here)))
              | inr other ↦
                  let below : (uses id l || uses id r) ≡ true = ground arith in
                  rw (name, good)
                    (children-Collected l r id (λ f. uses-collected l f id)
                      (λ f. uses-collected r f id) (ref ∷ ids, error) below h')
            ]
      ]
    ]

module _ {F : Type 0} (p : Plan F) where
  all_usable-seen :
      (available : List SymbolId) (owner : String) (ids : List SymbolId) (id : SymbolId)
      → all_usable p available owner ids ≡ ok tt
      → seen id ids ≡ true
      → usable p available owner id ≡ ok tt
  unfolding all_usable seen
  all_usable-seen available owner [] id h s = cc
  all_usable-seen available owner (v ∷ vs) id h s =
      let (u, first, others) =
        >>=-eq-ok (usable p available owner v) (λ u. all_usable p available owner vs) h in
      elim (Bool-cases (v == id)) [
        | inl same ↦ let e : v ≡ id = ground arith in rw e at first
        | inr other ↦ all_usable-seen available owner vs id others (rw other at s)
      ]

  not_usable :
      (owner : String) (id : SymbolId) (name : String) (k : SymbolKind)
      → usable_kind p owner id name k ≡ ok tt
      → is_value_kind k ≢ true
  not_usable owner id name SymbolKind.type_alias h = λ value. cc
  not_usable owner id name SymbolKind.struct h = λ value. cc
  not_usable owner id name SymbolKind.enum h = λ value. cc
  not_usable owner id name SymbolKind.constant h = λ value. cc
  not_usable owner id name SymbolKind.callback h = λ value. cc
  not_usable owner id name SymbolKind.parameter h = λ value. cc
  not_usable owner id name SymbolKind.enum_item h = λ value. cc
  not_usable owner id name SymbolKind.attribute_definition h = λ value. cc
  not_usable owner id name SymbolKind.field h = λ value. cc
  not_usable owner id name SymbolKind.virtual_field h = λ value. cc
  not_usable owner id name SymbolKind.alias_field h = λ value. cc

  usable-value :
      (available : List SymbolId) (owner : String) (id : SymbolId) {s : Symbol}
      → usable p available owner id ≡ ok tt
      → find id p.symbol_table ≡ some s
      → is_value_kind s.kind ≡ true
      → seen id available ≡ true
  unfolding usable
  usable-value available owner id {s} h f k = elim (Bool-cases (seen id available)) [
    | inl here ↦ here
    | inr absent ↦
        let h' : usable_symbol p owner id (some s) ≡ ok tt = rw (absent, f) at h in
        absurd (not_usable owner id s.name s.kind h' k)
  ]

  -- A field or a virtual field that an accepted expression refers to is available.
  pub value-available :
      (e : Expr) (available : List SymbolId) (owner : String) (id : SymbolId) {s : Symbol}
      → validate_expr_dependencies p e available owner ≡ ok tt
      → uses id e ≡ true
      → find id p.symbol_table ≡ some s
      → is_value_kind s.kind ≡ true
      → seen id available ≡ true
  unfolding validate_expr_dependencies
  value-available e available owner id {s} h u f k =
      let (ids, error) = collect_expr_symbols e ([], "") in
      let (clean, h') =
        refuse_if-eq-ok (not (str_eq error "")) error (all_usable p available owner ids) h in
      let empty : error ≡ "" = (str_eq_iff error "").0 (ground arith) in
      usable-value available owner id
        (all_usable-seen available owner ids id h' (uses-collected e ([], "") id u empty)) f k
