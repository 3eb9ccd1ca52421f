-- ===== src/Tests/Checks.antt =====
-- plan/PlanBuilder.cpp and plan/LayoutGraph.cpp: the checks of a plan and of a graph that is accepted.
use embx.Prelude.{map, ℕ, ◌*◌, ◌+◌, ◌≡◌, ◌≤◌, ◌<◌, refl, String, List, [], ◌∷◌, true, In}
use embx.Prelude.Int.{ℤ}
use embx.Prelude.Map.{nat_key, lookup, contains}
use embx.Prelude.Result.{ok, err}
use embx.Core.Symbol.{SymbolKind, find}
use embx.Core.Expr.{ExprKind, ExprType, null_expr, node}
use embx.Core.Types.{TypeKind, DimensionKind}
use embx.Runtime.Host.{little}
use embx.Plan.Model.{BitsField, Op, field_op, no_ops, cons_op}
use embx.Plan.Visiting.{seen}
use embx.Plan.Dependencies.{
  collect_expr_symbols, usable, all_usable, validate_expr_dependencies, validate_dimensions,
  members_dependencies,
}
use embx.Plan.Dependencies.Before.{uses}
use embx.Plan.Dependencies.After.{declared}
use embx.Plan.Dependencies.Declared.{any_uses, append_ops, members_dependencies-declared}
use embx.Plan.Identities.{
  validate_index, validate_plan_expr_identity, validate_dimension_identities,
  validate_executable_type, bits_widths, validate_bits,
}
use embx.Plan.Executable.{
  validate_field, validate_members, validate_requirements, validate_structs,
  validate_executable_plan,
}
use embx.Plan.Executable.Known.{
  width_sum, NoEmpty, Named, validate_bits-widths, executable_type-Named,
}
use embx.Plan.LayoutGraph.{LayoutNode, LayoutEdge, LayoutGraph, edge}
use embx.Plan.LayoutGraph.Build.{
  make_layout_graph, walk_parameters, walk_constants, walk_enums, walk_structs, walk_members,
  walk_dimensions,
}
use embx.Plan.LayoutGraph.Built.{IsBuilt}
use embx.Plan.LayoutGraph.Built.Walks.{make_layout_graph-IsBuilt}
use embx.Plan.LayoutGraph.{add_expr_edges, add_edges, collect, expr_text, own}
use embx.Plan.LayoutGraph.Validate.{
  symbol_nodes, arcs, adjacent, visit_all, dfs, search, validate_layout_graph,
}
use embx.Plan.LayoutGraph.Validate.Acyclic.{Declares, validate_layout_graph-acyclic}
use embx.Plan.LayoutGraph.Validate.Fuel.{dfs-ends}
use embx.Tests.Plans.{type_of, plain_field, byte_field, pair_type, plan}

-- `b: bytes[a]`
abbrev counted_field : Op ℤ
counted_field = field_op (
    plain_field 3 "b" (record (type_of TypeKind.bytes "bytes" 0) {
      dimensions =
          record {
            kind = DimensionKind.dynamic;
            expression =
                node ExprKind.identifier "a" "" 2 ExprType.integer_unsigned null_expr null_expr;
          }
          ∷ [];
    }))

members_dependencies-declared_example : seen 2 (declared (cons_op byte_field no_ops) []) ≡ true
members_dependencies-declared_example =
    members_dependencies-declared plan (cons_op byte_field no_ops) counted_field no_ops [] "Pair" 2
      {after = 3 ∷ 2 ∷ []} {s = record { id = 2; kind = SymbolKind.field; name = "a" }}
      (unfold members_dependencies append_ops validate_dimensions validate_expr_dependencies
          collect_expr_symbols all_usable usable seen in
        refl)
      (unfold any_uses uses in refl) (unfold find in refl) refl

late_refused :
    members_dependencies plan (cons_op counted_field (cons_op byte_field no_ops)) [] "Pair"
    ≡ err "Pair.b: value dependency declared later: a"
unfolding members_dependencies validate_dimensions validate_expr_dependencies collect_expr_symbols
    all_usable usable seen find
late_refused = refl

abbrev bits_of : ℕ → String → ℕ → BitsField
bits_of symbol name width = record {
  symbol = symbol;
  name = name;
  type = type_of TypeKind.primitive "u8" 0;
  endian = little;
  bits = width;
  assertion = "";
}

abbrev nibble_and_flag : List BitsField
nibble_and_flag = bits_of 2 "a" 4 ∷ bits_of 3 "b" 1 ∷ []

validate_bits-widths_example :
    (width_sum nibble_and_flag ≡ 5)
    × (1 ≤ 5)
    × (5 ≤ 64)
    × (5 ≤ 8 * 1)
    × (8 * 1 < 5 + 8)
    × NoEmpty nibble_and_flag
validate_bits-widths_example = validate_bits-widths plan nibble_and_flag 5 1 "Pair" (
    unfold validate_bits bits_widths find validate_executable_type validate_dimension_identities in
    refl)

plan_accepted : validate_executable_plan plan ≡ ok tt
unfolding validate_executable_plan validate_index validate_structs validate_requirements
    validate_members validate_field find validate_executable_type validate_dimension_identities
    validate_plan_expr_identity
plan_accepted = refl

executable_type-Named_example : Named plan pair_type
executable_type-Named_example =
    executable_type-Named plan pair_type "Pair" plan_accepted
      (unfold validate_executable_type validate_dimension_identities find contains in refl) refl

abbrev node_of : ℕ → ℕ → String → LayoutNode
node_of id symbol name = record {
  id = id;
  symbol = symbol;
  name = name;
  owner = "Pair";
  executable = true;
}

-- The second node depends on the first.
abbrev two_nodes : LayoutGraph
two_nodes = record { nodes = node_of 0 2 "a" ∷ node_of 1 3 "b" ∷ []; edges = edge 1 2 "a" ∷ [] }

validate_layout_graph-acyclic_example :
    (number : ℕ → ℕ) × ((e : LayoutEdge) → In e two_nodes.edges → Declares two_nodes.nodes e)
    × ((e : LayoutEdge) (b : LayoutNode)
        → In e two_nodes.edges
        → In b two_nodes.nodes
        → b.symbol ≡ e.to
        → number b.id < number e.from)
validate_layout_graph-acyclic_example = validate_layout_graph-acyclic two_nodes (
    unfold validate_layout_graph symbol_nodes arcs lookup contains search dfs visit_all adjacent
      seen in
    refl)

cycle_refused :
    validate_layout_graph (record two_nodes { edges = edge 1 2 "a" ∷ edge 0 3 "b" ∷ [] })
    ≡ err "layout dependency cycle detected at: Pair.a"
unfolding validate_layout_graph symbol_nodes arcs lookup contains search dfs visit_all adjacent seen
cycle_refused = refl

dfs-ends_example :
    dfs two_nodes.nodes ((1, 0) ∷ []) (ok []) (3 + 4) [] 1 []
    ≡ dfs two_nodes.nodes ((1, 0) ∷ []) (err "") 3 [] 1 []
dfs-ends_example =
    dfs-ends two_nodes ((3, 1) ∷ (2, 0) ∷ []) {pairs = (1, 0) ∷ []} (ok []) (err "") 4 1 []
      (unfold arcs lookup in refl)

make_layout_graph-IsBuilt_example : IsBuilt (make_layout_graph plan).0
make_layout_graph-IsBuilt_example = make_layout_graph-IsBuilt plan

made_names :
    map (λ n. n.name) (make_layout_graph plan).0.nodes
    ≡ "a" ∷ "<op>" ∷ "b" ∷ "a" ∷ "<op>" ∷ "b" ∷ []
unfolding make_layout_graph walk_parameters walk_constants walk_enums walk_structs walk_members
    walk_dimensions add_expr_edges add_edges collect expr_text own
made_names = refl
