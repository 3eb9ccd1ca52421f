-- ===== src/Tests/Graphs.antt =====
-- plan/LayoutGraph.cpp: the edges of `len - $next`.
use embx.Prelude.{ℕ, ◌≡◌, refl, String, [], ◌∷◌}
use embx.Prelude.Result.{ok, err}
use embx.Core.Symbol.{builtin_next_symbol_id}
use embx.Core.Expr.{ExprKind, ExprType, Expr, null_expr, node}
use embx.Plan.LayoutGraph.{LayoutGraph, edge, collect, expr_text, add_edges, add_expr_edges, own}
use embx.Plan.LayoutGraph.Occurs.{Occurs}
use embx.Plan.LayoutGraph.Edges.{Outcome, add_expr_edges-Added}

abbrev named : String → ℕ → Expr
named text ref = node ExprKind.identifier text "" ref ExprType.unknown null_expr null_expr

abbrev rest : Expr
rest =
    node ExprKind.binary "" "-" 0 ExprType.unknown (named "len" 5)
      (named "$next" builtin_next_symbol_id)

abbrev empty_graph : LayoutGraph
empty_graph = record { nodes = []; edges = [] }

add_expr_edges-Added_example :
    Outcome
      (λ name ref. Occurs name ref rest)
      (expr_text rest)
      2
      empty_graph
      (add_expr_edges rest 2 empty_graph)
add_expr_edges-Added_example = add_expr_edges-Added rest 2 empty_graph

rest_edges :
    add_expr_edges rest 2 empty_graph
    ≡ (record { nodes = []; edges = edge 2 5 "(len - $next)" ∷ [] }, ok tt)
unfolding add_expr_edges add_edges collect own expr_text
rest_edges = refl

unresolved_refused :
    add_expr_edges (named "len" 0) 2 empty_graph
    ≡ (empty_graph, err "layout dependency contains unresolved identifier: len")
unfolding add_expr_edges add_edges collect own expr_text
unresolved_refused = refl
