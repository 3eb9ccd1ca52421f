-- ===== src/Plan/LayoutGraph/Build.antt =====
-- plan/LayoutGraph.cpp: the walk over the members of a plan's structs that makes the layout graph. The
-- graph is also what an error leaves.
use embx.Prelude.{
  ℕ, String, ◌+s◌, Bool, true, false, not, none, some, List, [], ◌∷◌, ◌++◌, ◌==◌, if◌then◌else◌,
  length,
}
use embx.Prelude.Result.{Result, ok, err}
use embx.Core.Symbol.{SymbolId, invalid_symbol_id}
use embx.Core.Expr.{Expr}
use embx.Core.Types.{Dimension}
use embx.Plan.Model.{
  BitsField, Op, null_op, field_op, virtual_op, alias_op, bits_op, variant_op, conditional_op,
  block_op, at_op, align_op, callback_op, Ops, no_ops, cons_op, Cases, no_cases, cons_case, Struct,
  Constant, Enum, EnumItem, Parameter, Plan,
}
use embx.Plan.Sizes.{is_null}
use embx.Plan.LayoutGraph.{LayoutGraph, edge, add_expr_edges}

abbrev pub Walk : Type 0
Walk = LayoutGraph × Result (Unit {0})

infixl 5 ◌then_walk◌
abbrev pub ◌then_walk◌ : Walk → (LayoutGraph → Walk) → Walk
(g, ok u) then_walk next = next g
(g, err e) then_walk next = (g, err e)

abbrev pub add_node : SymbolId → String → String → Bool → LayoutGraph → LayoutGraph
add_node symbol name owner executable g = record g {
  nodes =
      g.nodes
      ++ (record {
        id = length g.nodes;
        symbol = symbol;
        name = name;
        owner = owner;
        executable = executable;
      }
          ∷ []);
}

unfoldable pub walk_dimensions : List Dimension → ℕ → LayoutGraph → Walk
walk_dimensions [] from g = (g, ok tt)
walk_dimensions (d ∷ ds) from g =
    (if is_null d.expression then (g, ok tt) else add_expr_edges d.expression from g)
    then_walk walk_dimensions ds from

unfoldable pub walk_expressions : List Expr → ℕ → LayoutGraph → Walk
walk_expressions [] from g = (g, ok tt)
walk_expressions (e ∷ es) from g = add_expr_edges e from g then_walk walk_expressions es from

unfoldable pub walk_bits : List BitsField → String → LayoutGraph → Walk
walk_bits [] owner g = (g, ok tt)
walk_bits (b ∷ bs) owner g =
    (if b.symbol == invalid_symbol_id
      then (g, ok tt)
      else walk_dimensions b.type.dimensions (length g.nodes)
          (add_node b.symbol b.name (owner +s ".<bits>") true g))
    then_walk walk_bits bs owner

-- The symbol and the name of a member's node.
abbrev pub op_symbol : {F : Type 0} → Op F → SymbolId
op_symbol (virtual_op symbol _ _) = symbol
op_symbol (alias_op symbol _ _ _) = symbol
op_symbol (field_op f) = f.symbol
op_symbol _ = invalid_symbol_id

abbrev pub op_name : {F : Type 0} → Op F → String
op_name (virtual_op _ name _) = name
op_name (alias_op _ name _ _) = name
op_name (field_op f) = f.name
op_name (block_op name _ _ _) = name
op_name (variant_op name _ _ _ _ _) = name
op_name (at_op _ _ _) = "<at>"
op_name _ = "<op>"

abbrev pub op_node : {F : Type 0} → Op F → String → LayoutGraph → LayoutGraph
op_node op owner g =
    add_node (op_symbol op) (op_name op) owner (not (op_symbol op == invalid_symbol_id)) g

unfoldable mutual
  pub walk_members : {F : Type 0} → Ops F → String → LayoutGraph → Walk
  walk_members no_ops owner g = (g, ok tt)
  walk_members (cons_op null_op rest) owner g = (g, err (owner +s ": null layout operation"))
  walk_members (cons_op op rest) owner g =
      walk_op op owner (length g.nodes) (op_node op owner g) then_walk walk_members rest owner

  -- What the walk does for a member whose node is `id`.
  pub walk_op : {F : Type 0} → Op F → String → ℕ → LayoutGraph → Walk
  walk_op null_op owner id g = (g, ok tt)
  walk_op (virtual_op _ _ e) owner id g = add_expr_edges e id g
  walk_op (alias_op _ name target target_name) owner id g =
      if target == invalid_symbol_id
      then (g, err ("layout dependency contains unresolved alias target: " +s name))
      else (record g { edges = g.edges ++ (edge id target target_name ∷ []) }, ok tt)
  walk_op (field_op f) owner id g = walk_dimensions f.type.dimensions id g
  walk_op (bits_op fields _ _) owner id g = walk_bits fields owner g
  walk_op (conditional_op e then_members else_members) owner id g =
      add_expr_edges e id g
      then_walk walk_members then_members (owner +s ".<if>")
      then_walk walk_members else_members (owner +s ".<else>")
  walk_op (variant_op name e cases _ _ _) owner id g =
      add_expr_edges e id g then_walk walk_cases cases (owner +s "." +s name) id
  walk_op (block_op name e _ members) owner id g =
      add_expr_edges e id g then_walk walk_members members (owner +s "." +s name)
  walk_op (at_op e _ members) owner id g =
      add_expr_edges e id g then_walk walk_members members (owner +s ".<at>")
  walk_op (align_op e _) owner id g = add_expr_edges e id g
  walk_op (callback_op _ _ args) owner id g = walk_expressions args id g

  pub walk_cases : {F : Type 0} → Cases F → String → ℕ → LayoutGraph → Walk
  walk_cases no_cases owner id g = (g, ok tt)
  walk_cases (cons_case _ (some t) members rest) owner id g =
      walk_dimensions t.dimensions id g then_walk walk_cases rest owner id
  walk_cases (cons_case _ none members rest) owner id g =
      walk_members members owner g then_walk walk_cases rest owner id

unfoldable pub walk_parameters : List Parameter → LayoutGraph → Walk
walk_parameters [] g = (g, ok tt)
walk_parameters (q ∷ qs) g =
    if q.symbol == invalid_symbol_id
    then (g, err ("parameter has invalid SymbolId: " +s q.name))
    else walk_parameters qs (add_node q.symbol q.name "<module>" false g)

module _ {F : Type 0} where
  unfoldable pub walk_constants : List (Constant F) → LayoutGraph → LayoutGraph
  walk_constants [] g = g
  walk_constants (c ∷ cs) g = walk_constants cs (add_node c.symbol c.name "<module>" false g)

  unfoldable pub walk_items : String → List (EnumItem F) → LayoutGraph → Walk
  walk_items name [] g = (g, ok tt)
  walk_items name (i ∷ is) g =
      if i.symbol == invalid_symbol_id
      then (g, err ("enum item has invalid SymbolId: " +s name +s "::" +s i.name))
      else walk_items name is (add_node i.symbol i.name name false g)

  unfoldable pub walk_enums : List (Enum F) → LayoutGraph → Walk
  walk_enums [] g = (g, ok tt)
  walk_enums (e ∷ es) g = walk_items e.name e.items g then_walk walk_enums es

  unfoldable pub walk_structs : List (Struct F) → LayoutGraph → Walk
  walk_structs [] g = (g, ok tt)
  walk_structs (s ∷ ss) g = walk_members s.members s.name g then_walk walk_structs ss

  -- `buildLayoutGraph` up to its last line, which validates the graph.
  unfoldable pub make_layout_graph : Plan F → Walk
  make_layout_graph p =
      walk_parameters p.parameters (record { nodes = []; edges = [] })
      then_walk (λ g. walk_enums p.enums (walk_constants p.constants g))
      then_walk walk_structs p.structs
