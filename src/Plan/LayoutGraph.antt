-- ===== src/Plan/LayoutGraph.antt =====
-- plan/LayoutGraph.h and LayoutGraph.cpp: the graph of layout dependencies, the edges that an
-- expression gives, and the lookups of nodes. An edge goes from a node to a symbol.
pub mod Build
pub mod Built
pub mod Edges
pub mod Occurs
pub mod Validate
use embx.Prelude.{
  ℕ, String, ◌+s◌, Bool, true, false, not, ◌&&◌, ◌||◌, Option, none, some, List, [], ◌∷◌, ◌++◌,
  ◌==◌, str_eq, if◌then◌else◌,
}
use embx.Prelude.Result.{Result, ok, err}
use embx.Core.Symbol.{
  SymbolId, invalid_symbol_id, valid, builtin_next_symbol_id, builtin_size_in_bytes_symbol_id,
  builtin_min_size_in_bytes_symbol_id, builtin_max_size_in_bytes_symbol_id,
}
use embx.Core.Expr.{ExprKind, Expr, null_expr, node}

pub record LayoutNode : Type 0 where
  pub id : ℕ
  pub symbol : SymbolId
  pub name : String
  pub owner : String
  pub executable : Bool

pub record LayoutEdge : Type 0 where
  pub from : ℕ
  pub to : SymbolId
  pub expression : String

pub record LayoutGraph : Type 0 where
  pub nodes : List LayoutNode
  pub edges : List LayoutEdge

-- The identifiers of a tree: of a node of this kind, its text and reference.
unfoldable pub own : ExprKind → String → SymbolId → List (String × SymbolId)
own ExprKind.identifier text ref = (text, ref) ∷ []
own _ text ref = []

unfoldable pub collect : Expr → List (String × SymbolId)
collect null_expr = []
collect (node k text op ref type l r) = own k text ref ++ (collect l ++ collect r)

unfoldable pub expr_text : Expr → String
expr_text null_expr = ""
expr_text (node ExprKind.identifier text op ref type l r) = text
expr_text (node ExprKind.literal text op ref type l r) = text
expr_text (node ExprKind.unary text op ref type l r) = op +s expr_text l
expr_text (node ExprKind.binary text op ref type l r) =
    "(" +s expr_text l +s " " +s op +s " " +s expr_text r +s ")"
expr_text (node ExprKind.parenthesized text op ref type l r) = text

abbrev pub is_builtin : String × SymbolId → Bool
is_builtin (text, ref) =
    (str_eq text "$next" && (ref == builtin_next_symbol_id))
    || (str_eq text "$size_in_bytes" && (ref == builtin_size_in_bytes_symbol_id))
    || (str_eq text "$min_size_in_bytes" && (ref == builtin_min_size_in_bytes_symbol_id))
    || (str_eq text "$max_size_in_bytes" && (ref == builtin_max_size_in_bytes_symbol_id))

abbrev pub edge : ℕ → SymbolId → String → LayoutEdge
edge from to expression = record { from = from; to = to; expression = expression }

-- The loop over the identifiers. The graph is also what an error leaves.
unfoldable pub add_edges :
    List (String × SymbolId) → String → ℕ → LayoutGraph → LayoutGraph × Result (Unit {0})
add_edges [] text from g = (g, ok tt)
add_edges (id ∷ ids) text from g =
    if is_builtin id
    then add_edges ids text from g
    else if not (valid id.1)
    then (g, err ("layout dependency contains unresolved identifier: " +s id.0))
    else add_edges ids text from (record g { edges = g.edges ++ (edge from id.1 text ∷ []) })

unfoldable pub add_expr_edges : Expr → ℕ → LayoutGraph → LayoutGraph × Result (Unit {0})
add_expr_edges e from g = add_edges (collect e) (expr_text e) from g

abbrev find_by : (LayoutNode → Bool) → List LayoutNode → Option LayoutNode
find_by p [] = none
find_by p (n ∷ ns) = if p n then some n else find_by p ns

unfoldable pub find_named : String → String → LayoutGraph → Option LayoutNode
find_named owner name g = find_by (λ n. str_eq n.owner owner && str_eq n.name name) g.nodes

unfoldable pub find_symbol : SymbolId → LayoutGraph → Option LayoutNode
find_symbol symbol g =
    if symbol == invalid_symbol_id then none else find_by (λ n. n.symbol == symbol) g.nodes
