-- ===== src/Plan/LayoutGraph/Occurs.antt =====
-- plan/LayoutGraph.cpp: the identifiers of an expression, and those that are built in.
use embx.Prelude.{
  ◌≡◌, ◌↔◌, refl, ap, arith, ◌⊎◌, inl, inr, str_eq_iff, String, true, ◌++◌, In, In-append_left,
  In-append_right, In-append_cases,
}
use embx.Core.Symbol.{
  SymbolId, builtin_next_symbol_id, builtin_size_in_bytes_symbol_id,
  builtin_min_size_in_bytes_symbol_id, builtin_max_size_in_bytes_symbol_id,
}
use embx.Core.Expr.{ExprKind, Expr, null_expr, node}
use embx.Plan.LayoutGraph.{is_builtin, own, collect}

-- An identifier with this text and reference stands somewhere in the tree.
abbrev pub Occurs : String → SymbolId → Expr → Type 0
Occurs text ref null_expr = ⊥
Occurs text ref (node k t op s type l r) =
    ((k ≡ ExprKind.identifier) × (t ≡ text) × (s ≡ ref)) ⊎ Occurs text ref l ⊎ Occurs text ref r

-- The reserved names, under their reserved identities.
abbrev pub IsBuiltin : String → SymbolId → Type 0
IsBuiltin text ref =
    ((text ≡ "$next") × (ref ≡ builtin_next_symbol_id))
    ⊎ ((text ≡ "$size_in_bytes") × (ref ≡ builtin_size_in_bytes_symbol_id))
    ⊎ ((text ≡ "$min_size_in_bytes") × (ref ≡ builtin_min_size_in_bytes_symbol_id))
    ⊎ ((text ≡ "$max_size_in_bytes") × (ref ≡ builtin_max_size_in_bytes_symbol_id))

In-own :
    (text : String) (ref : SymbolId) (k : ExprKind) (t : String) (s : SymbolId)
    → In (text, ref) (own k t s)
    → (k ≡ ExprKind.identifier) × (t ≡ text) × (s ≡ ref)
unfolding own
In-own text ref ExprKind.identifier t s (inl h) =
    (refl, ap (λ (q : String × SymbolId). q.0) h, ap (λ (q : String × SymbolId). q.1) h)
In-own text ref ExprKind.identifier t s (inr h) = absurd h
In-own text ref ExprKind.literal t s h = absurd h
In-own text ref ExprKind.unary t s h = absurd h
In-own text ref ExprKind.binary t s h = absurd h
In-own text ref ExprKind.parenthesized t s h = absurd h

-- `collect` finds the identifiers of the tree, and nothing else.
pub Occurs-collect :
    (text : String) (ref : SymbolId) (e : Expr) → Occurs text ref e → In (text, ref) (collect e)
unfolding collect own
Occurs-collect text ref null_expr h = absurd h
Occurs-collect text ref (node k t op s type l r) (inl (is, same, to)) =
    rw is (inl (rw (same, to) refl))
Occurs-collect text ref (node k t op s type l r) (inr (inl h)) =
    In-append_right (text, ref) (own k t s) (collect l ++ collect r)
      (In-append_left (text, ref) (collect l) (collect r) (Occurs-collect text ref l h))
Occurs-collect text ref (node k t op s type l r) (inr (inr h)) =
    In-append_right (text, ref) (own k t s) (collect l ++ collect r)
      (In-append_right (text, ref) (collect l) (collect r) (Occurs-collect text ref r h))

pub collect-Occurs :
    (text : String) (ref : SymbolId) (e : Expr) → In (text, ref) (collect e) → Occurs text ref e
unfolding collect
collect-Occurs text ref null_expr h = absurd h
collect-Occurs text ref (node k t op s type l r) h =
    elim (In-append_cases (text, ref) (own k t s) (collect l ++ collect r) h) [
      | inl a ↦ inl (In-own text ref k t s a)
      | inr a ↦ elim (In-append_cases (text, ref) (collect l) (collect r) a) [
        | inl b ↦ inr (inl (collect-Occurs text ref l b))
        | inr b ↦ inr (inr (collect-Occurs text ref r b))
      ]
    ]

pub is_builtin-IsBuiltin :
    (text : String) (ref : SymbolId) → (is_builtin (text, ref) ≡ true) ↔ IsBuiltin text ref
is_builtin-IsBuiltin text ref = ground (
  arith,
  str_eq_iff text "$next",
  str_eq_iff text "$size_in_bytes",
  str_eq_iff text "$min_size_in_bytes",
  str_eq_iff text "$max_size_in_bytes",
)
