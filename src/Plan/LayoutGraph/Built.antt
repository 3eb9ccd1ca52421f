-- ===== src/Plan/LayoutGraph/Built.antt =====
-- plan/LayoutGraph.cpp: in a graph that the walk makes, the number of a node is its place, and edges
-- start at nodes of the graph.
pub mod Walks
use embx.Prelude.{
  ℕ, zero, suc, ◌+◌, ◌≤◌, ◌<◌, ◌≡◌, refl, arith, String, ◌+s◌, Bool, true, false, not, Option, none,
  some, List, [], ◌∷◌, ◌++◌, ◌==◌, if◌then◌else◌, length, get_elem?, inl, inr, Bool-cases,
}
use embx.Prelude.Result.{Result, ok, err}
use embx.Core.Symbol.{SymbolId, invalid_symbol_id, valid}
use embx.Core.Expr.{Expr}
use embx.Core.Types.{Dimension, CoreType}
use embx.Plan.Model.{
  Field, BitsField, Op, null_op, field_op, virtual_op, alias_op, bits_op, variant_op,
  conditional_op, block_op, at_op, align_op, callback_op, Ops, no_ops, cons_op, Cases, no_cases,
  cons_case, Struct, Constant, Enum, EnumItem, Parameter, Plan,
}
use embx.Plan.Sizes.{is_null}
use embx.Plan.LayoutGraph.{
  LayoutNode, LayoutEdge, LayoutGraph, edge, is_builtin, collect, expr_text, add_edges,
  add_expr_edges,
}
use embx.Plan.LayoutGraph.Build.{
  Walk, ◌then_walk◌, add_node, walk_dimensions, walk_expressions, walk_bits, op_node, walk_members,
  walk_op, walk_cases, walk_parameters, walk_constants, walk_items, walk_enums, walk_structs,
  make_layout_graph,
}

unfoldable pub Numbered : ℕ → List LayoutNode → Type 0
Numbered i [] = Unit {0}
Numbered i (n ∷ ns) = (n.id ≡ i) × Numbered (suc i) ns

unfoldable pub Within : ℕ → List LayoutEdge → Type 0
Within k [] = Unit {0}
Within k (e ∷ es) = (e.from < k) × Within k es

abbrev pub IsBuilt : LayoutGraph → Type 0
IsBuilt g = Numbered 0 g.nodes × Within (length g.nodes) g.edges

abbrev pub Grown : LayoutGraph → LayoutGraph → Type 0
Grown g h = IsBuilt h × (length g.nodes ≤ length h.nodes)

length-snoc : (ns : List LayoutNode) (n : LayoutNode) → length (ns ++ (n ∷ [])) ≡ suc (length ns)
length-snoc [] n = refl
length-snoc (m ∷ ns) n = omega (arith, length-snoc ns n)

Numbered-snoc :
    (i : ℕ) (ns : List LayoutNode) (n : LayoutNode)
    → Numbered i ns
    → n.id ≡ i + length ns
    → Numbered i (ns ++ (n ∷ []))
unfolding Numbered
Numbered-snoc i [] n all e = (omega arith, tt)
Numbered-snoc i (m ∷ ns) n all e = (all.0, Numbered-snoc (suc i) ns n all.1 (omega arith))

Within-mono : (k l : ℕ) (es : List LayoutEdge) → k ≤ l → Within k es → Within l es
unfolding Within
Within-mono k l [] le all = tt
Within-mono k l (e ∷ es) le all = (omega (arith, all.0), Within-mono k l es le all.1)

Within-snoc :
    (k : ℕ) (es : List LayoutEdge) (e : LayoutEdge)
    → Within k es
    → e.from < k
    → Within k (es ++ (e ∷ []))
unfolding Within
Within-snoc k [] e all lt = (lt, tt)
Within-snoc k (d ∷ es) e all lt = (all.0, Within-snoc k es e all.1 lt)

pub add_node-Grown :
    (symbol : SymbolId) (name owner : String) (executable : Bool) (g : LayoutGraph)
    → IsBuilt g
    → Grown g (add_node symbol name owner executable g)
add_node-Grown symbol name owner executable g built =
    let n : LayoutNode = record {
      id = length g.nodes;
      symbol = symbol;
      name = name;
      owner = owner;
      executable = executable;
    } in
    let longer = length-snoc g.nodes n in
    (
      (
        Numbered-snoc 0 g.nodes n built.0 (omega arith),
        Within-mono (length g.nodes) (length (g.nodes ++ (n ∷ []))) g.edges (omega arith) built.1,
      ),
      omega arith,
    )

pub length-add_node :
    (symbol : SymbolId) (name owner : String) (executable : Bool) (g : LayoutGraph)
    → length (add_node symbol name owner executable g).nodes ≡ suc (length g.nodes)
length-add_node symbol name owner executable g = length-snoc g.nodes (record {
  id = length g.nodes;
  symbol = symbol;
  name = name;
  owner = owner;
  executable = executable;
})

-- A further edge from a node of the graph.
pub edge-Grown :
    (from : ℕ) (to : SymbolId) (text : String) (g : LayoutGraph)
    → IsBuilt g
    → from < length g.nodes
    → Grown g (record g { edges = g.edges ++ (edge from to text ∷ []) })
edge-Grown from to text g built lt =
    ((built.0, Within-snoc (length g.nodes) g.edges (edge from to text) built.1 lt), omega arith)

pub same-Grown : (g : LayoutGraph) → IsBuilt g → Grown g g
same-Grown g built = (built, omega arith)

pub Grown-trans : (g h k : LayoutGraph) → Grown g h → Grown h k → Grown g k
Grown-trans g h k a b = (b.0, omega (arith, a.1, b.1))

pub then_walk-Grown :
    (g : LayoutGraph) (w : Walk) (next : LayoutGraph → Walk)
    → Grown g w.0
    → ((h : LayoutGraph) → Grown g h → Grown h (next h).0)
    → Grown g (w then_walk next).0
then_walk-Grown g (h, ok u) next first later = Grown-trans g h (next h).0 first (later h first)
then_walk-Grown g (h, err e) next first later = first

add_edges-Grown :
    (ids : List (String × SymbolId)) (text : String) (from : ℕ) (g : LayoutGraph)
    → IsBuilt g
    → from < length g.nodes
    → Grown g (add_edges ids text from g).0
unfolding add_edges
add_edges-Grown [] text from g built lt = same-Grown g built
add_edges-Grown (id ∷ ids) text from g built lt = elim (Bool-cases (is_builtin id)) [
  | inl skip ↦ rw skip (add_edges-Grown ids text from g built lt)
  | inr use_it ↦ elim (Bool-cases (not (valid id.1))) [
    | inl bad ↦ rw (use_it, bad) (same-Grown g built)
    | inr good ↦
        let h : LayoutGraph = record g { edges = g.edges ++ (edge from id.1 text ∷ []) } in
        let first = edge-Grown from id.1 text g built lt in
        rw (use_it, good)
          (Grown-trans g h (add_edges ids text from h).0 first
            (add_edges-Grown ids text from h first.0 lt))
  ]
]

pub add_expr_edges-Grown :
    (e : Expr) (from : ℕ) (g : LayoutGraph)
    → IsBuilt g
    → from < length g.nodes
    → Grown g (add_expr_edges e from g).0
unfolding add_expr_edges
add_expr_edges-Grown e from g built lt = add_edges-Grown (collect e) (expr_text e) from g built lt
