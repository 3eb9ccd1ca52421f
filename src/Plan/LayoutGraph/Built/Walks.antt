-- ===== src/Plan/LayoutGraph/Built/Walks.antt =====
-- plan/LayoutGraph.cpp: every step of the walk keeps a graph whose nodes are numbered by their places.
use embx.Prelude.{
  ℕ, ◌<◌, arith, String, ◌+s◌, Bool, true, false, not, none, some, List, [], ◌∷◌, ◌==◌,
  if◌then◌else◌, length, inl, inr, Bool-cases,
}
use embx.Prelude.Result.{ok}
use embx.Core.Symbol.{SymbolId, invalid_symbol_id}
use embx.Core.Expr.{Expr}
use embx.Core.Types.{Dimension}
use embx.Plan.Model.{
  BitsField, Op, null_op, field_op, virtual_op, alias_op, bits_op, variant_op, conditional_op,
  block_op, at_op, align_op, callback_op, Ops, no_ops, cons_op, Cases, no_cases, cons_case, Struct,
  Constant, Enum, EnumItem, Parameter, Plan,
}
use embx.Plan.Sizes.{is_null}
use embx.Plan.LayoutGraph.{LayoutGraph, add_expr_edges}
use embx.Plan.LayoutGraph.Build.{
  Walk, ◌then_walk◌, add_node, op_symbol, op_name, walk_dimensions, walk_expressions, walk_bits,
  op_node, walk_members, walk_op, walk_cases, walk_parameters, walk_constants, walk_items,
  walk_enums, walk_structs, make_layout_graph,
}
use embx.Plan.LayoutGraph.Built.{
  IsBuilt, length-add_node, Numbered, Within, Grown, add_node-Grown, edge-Grown, same-Grown,
  Grown-trans, then_walk-Grown, add_expr_edges-Grown,
}

abbrev Grows : (LayoutGraph → Walk) → Type 0
Grows walk = (g : LayoutGraph) → IsBuilt g → Grown g (walk g).0

-- A walk for a node of the graph.
abbrev GrowsFrom : (ℕ → LayoutGraph → Walk) → Type 0
GrowsFrom walk =
    (from : ℕ) (g : LayoutGraph) → IsBuilt g → from < length g.nodes → Grown g (walk from g).0

walk_dimensions-Grown : (ds : List Dimension) → GrowsFrom (walk_dimensions ds)
unfolding walk_dimensions
walk_dimensions-Grown [] from g built lt = same-Grown g built
walk_dimensions-Grown (d ∷ ds) from g built lt =
    then_walk-Grown g
      (if is_null d.expression then (g, ok tt) else add_expr_edges d.expression from g)
      (walk_dimensions ds from)
      (elim (Bool-cases (is_null d.expression)) [
        | inl e ↦ rw e (same-Grown g built)
        | inr e ↦ rw e (add_expr_edges-Grown d.expression from g built lt)
      ])
      (λ h a. walk_dimensions-Grown ds from h a.0 (omega (arith, a.1, lt)))

walk_expressions-Grown : (es : List Expr) → GrowsFrom (walk_expressions es)
unfolding walk_expressions
walk_expressions-Grown [] from g built lt = same-Grown g built
walk_expressions-Grown (e ∷ es) from g built lt =
    then_walk-Grown g (add_expr_edges e from g) (walk_expressions es from)
      (add_expr_edges-Grown e from g built lt)
      (λ h a. walk_expressions-Grown es from h a.0 (omega (arith, a.1, lt)))

-- A new node, and then a walk for it.
with_node-Grown :
    (symbol : SymbolId) (name owner : String) (executable : Bool) (g : LayoutGraph)
    (walk : ℕ → LayoutGraph → Walk)
    → IsBuilt g
    → GrowsFrom walk
    → Grown g (walk (length g.nodes) (add_node symbol name owner executable g)).0
with_node-Grown symbol name owner executable g walk built grows =
    let h : LayoutGraph = add_node symbol name owner executable g in
    let first = add_node-Grown symbol name owner executable g built in
    let longer = length-add_node symbol name owner executable g in
    Grown-trans g h (walk (length g.nodes) h).0 first
      (grows (length g.nodes) h first.0 (omega arith))

walk_bits-Grown : (bs : List BitsField) (owner : String) → Grows (walk_bits bs owner)
unfolding walk_bits
walk_bits-Grown [] owner g built = same-Grown g built
walk_bits-Grown (b ∷ bs) owner g built =
    then_walk-Grown g
      (if b.symbol == invalid_symbol_id
        then (g, ok tt)
        else walk_dimensions b.type.dimensions (length g.nodes)
            (add_node b.symbol b.name (owner +s ".<bits>") true g))
      (walk_bits bs owner)
      (elim (Bool-cases (b.symbol == invalid_symbol_id)) [
        | inl e ↦ rw e (same-Grown g built)
        | inr e ↦ rw e (
            with_node-Grown b.symbol b.name (owner +s ".<bits>") true g
              (walk_dimensions b.type.dimensions) built (walk_dimensions-Grown b.type.dimensions))
      ])
      (λ h a. walk_bits-Grown bs owner h a.0)

member-Grown :
    {F : Type 0} (op : Op F) (rest : Ops F) (owner : String) (g : LayoutGraph)
    → IsBuilt g
    → GrowsFrom (walk_op op owner)
    → Grows (walk_members rest owner)
    → Grown g
        (walk_op op owner (length g.nodes) (op_node op owner g) then_walk walk_members rest owner).0
member-Grown op rest owner g built one others =
    then_walk-Grown g (walk_op op owner (length g.nodes) (op_node op owner g))
      (walk_members rest owner)
      (with_node-Grown (op_symbol op) (op_name op) owner (not (op_symbol op == invalid_symbol_id)) g
        (walk_op op owner) built one)
      (λ h a. others h a.0)

module _ {F : Type 0} where
  mutual
    unfolding walk_members walk_op walk_cases

    walk_members-Grown : (ops : Ops F) (owner : String) → Grows (walk_members ops owner)
    walk_members-Grown no_ops owner g built = same-Grown g built
    walk_members-Grown (cons_op null_op rest) owner g built = same-Grown g built
    walk_members-Grown (cons_op (virtual_op a b e) rest) owner g built =
        member-Grown (virtual_op a b e) rest owner g built (walk_op-Grown (virtual_op a b e) owner)
          (walk_members-Grown rest owner)
    walk_members-Grown (cons_op (alias_op a b d e) rest) owner g built =
        member-Grown (alias_op a b d e) rest owner g built (walk_op-Grown (alias_op a b d e) owner)
          (walk_members-Grown rest owner)
    walk_members-Grown (cons_op (field_op f) rest) owner g built =
        member-Grown (field_op f) rest owner g built (walk_op-Grown (field_op f) owner)
          (walk_members-Grown rest owner)
    walk_members-Grown (cons_op (bits_op fs a b) rest) owner g built =
        member-Grown (bits_op fs a b) rest owner g built (walk_op-Grown (bits_op fs a b) owner)
          (walk_members-Grown rest owner)
    walk_members-Grown (cons_op (variant_op a e cs d f h) rest) owner g built =
        member-Grown (variant_op a e cs d f h) rest owner g built
          (walk_op-Grown (variant_op a e cs d f h) owner) (walk_members-Grown rest owner)
    walk_members-Grown (cons_op (conditional_op e a b) rest) owner g built =
        member-Grown (conditional_op e a b) rest owner g built
          (walk_op-Grown (conditional_op e a b) owner) (walk_members-Grown rest owner)
    walk_members-Grown (cons_op (block_op a e b d) rest) owner g built =
        member-Grown (block_op a e b d) rest owner g built (walk_op-Grown (block_op a e b d) owner)
          (walk_members-Grown rest owner)
    walk_members-Grown (cons_op (at_op e a b) rest) owner g built =
        member-Grown (at_op e a b) rest owner g built (walk_op-Grown (at_op e a b) owner)
          (walk_members-Grown rest owner)
    walk_members-Grown (cons_op (align_op e a) rest) owner g built =
        member-Grown (align_op e a) rest owner g built (walk_op-Grown (align_op e a) owner)
          (walk_members-Grown rest owner)
    walk_members-Grown (cons_op (callback_op a b es) rest) owner g built =
        member-Grown (callback_op a b es) rest owner g built
          (walk_op-Grown (callback_op a b es) owner) (walk_members-Grown rest owner)

    walk_op-Grown : (op : Op F) (owner : String) → GrowsFrom (walk_op op owner)
    walk_op-Grown null_op owner id g built lt = same-Grown g built
    walk_op-Grown (virtual_op _ _ e) owner id g built lt = add_expr_edges-Grown e id g built lt
    walk_op-Grown (alias_op _ name target text) owner id g built lt =
        elim (Bool-cases (target == invalid_symbol_id)) [
          | inl e ↦ rw e (same-Grown g built)
          | inr e ↦ rw e (edge-Grown id target text g built lt)
        ]
    walk_op-Grown (field_op f) owner id g built lt =
        walk_dimensions-Grown f.type.dimensions id g built lt
    walk_op-Grown (bits_op fields _ _) owner id g built lt = walk_bits-Grown fields owner g built
    walk_op-Grown (conditional_op e yes_members no_members) owner id g built lt =
        then_walk-Grown g
          (add_expr_edges e id g then_walk walk_members yes_members (owner +s ".<if>"))
          (walk_members no_members (owner +s ".<else>"))
          (then_walk-Grown g (add_expr_edges e id g) (walk_members yes_members (owner +s ".<if>"))
            (add_expr_edges-Grown e id g built lt)
            (λ h a. walk_members-Grown yes_members (owner +s ".<if>") h a.0))
          (λ h a. walk_members-Grown no_members (owner +s ".<else>") h a.0)
    walk_op-Grown (variant_op name e cases _ _ _) owner id g built lt =
        then_walk-Grown g (add_expr_edges e id g) (walk_cases cases (owner +s "." +s name) id)
          (add_expr_edges-Grown e id g built lt)
          (λ h a. walk_cases-Grown cases (owner +s "." +s name) id h a.0 (omega (arith, a.1, lt)))
    walk_op-Grown (block_op name e _ members) owner id g built lt =
        then_walk-Grown g (add_expr_edges e id g) (walk_members members (owner +s "." +s name))
          (add_expr_edges-Grown e id g built lt)
          (λ h a. walk_members-Grown members (owner +s "." +s name) h a.0)
    walk_op-Grown (at_op e _ members) owner id g built lt =
        then_walk-Grown g (add_expr_edges e id g) (walk_members members (owner +s ".<at>"))
          (add_expr_edges-Grown e id g built lt)
          (λ h a. walk_members-Grown members (owner +s ".<at>") h a.0)
    walk_op-Grown (align_op e _) owner id g built lt = add_expr_edges-Grown e id g built lt
    walk_op-Grown (callback_op _ _ args) owner id g built lt =
        walk_expressions-Grown args id g built lt

    walk_cases-Grown : (cases : Cases F) (owner : String) → GrowsFrom (walk_cases cases owner)
    walk_cases-Grown no_cases owner id g built lt = same-Grown g built
    walk_cases-Grown (cons_case _ (some t) members rest) owner id g built lt =
        then_walk-Grown g (walk_dimensions t.dimensions id g) (walk_cases rest owner id)
          (walk_dimensions-Grown t.dimensions id g built lt)
          (λ h a. walk_cases-Grown rest owner id h a.0 (omega (arith, a.1, lt)))
    walk_cases-Grown (cons_case _ none members rest) owner id g built lt =
        then_walk-Grown g (walk_members members owner g) (walk_cases rest owner id)
          (walk_members-Grown members owner g built)
          (λ h a. walk_cases-Grown rest owner id h a.0 (omega (arith, a.1, lt)))

walk_parameters-Grown : (qs : List Parameter) → Grows (walk_parameters qs)
unfolding walk_parameters
walk_parameters-Grown [] g built = same-Grown g built
walk_parameters-Grown (q ∷ qs) g built =
    let h : LayoutGraph = add_node q.symbol q.name "<module>" false g in
    let first = add_node-Grown q.symbol q.name "<module>" false g built in
    elim (Bool-cases (q.symbol == invalid_symbol_id)) [
      | inl e ↦ rw e (same-Grown g built)
      | inr e ↦
          rw e (Grown-trans g h (walk_parameters qs h).0 first (walk_parameters-Grown qs h first.0))
    ]

module _ {F : Type 0} where
  walk_constants-Grown :
      (cs : List (Constant F)) (g : LayoutGraph) → IsBuilt g → Grown g (walk_constants cs g)
  unfolding walk_constants
  walk_constants-Grown [] g built = same-Grown g built
  walk_constants-Grown (c ∷ cs) g built =
      let h : LayoutGraph = add_node c.symbol c.name "<module>" false g in
      let first = add_node-Grown c.symbol c.name "<module>" false g built in
      Grown-trans g h (walk_constants cs h) first (walk_constants-Grown cs h first.0)

  walk_items-Grown : (name : String) (is : List (EnumItem F)) → Grows (walk_items name is)
  unfolding walk_items
  walk_items-Grown name [] g built = same-Grown g built
  walk_items-Grown name (i ∷ is) g built =
      let h : LayoutGraph = add_node i.symbol i.name name false g in
      let first = add_node-Grown i.symbol i.name name false g built in
      elim (Bool-cases (i.symbol == invalid_symbol_id)) [
        | inl e ↦ rw e (same-Grown g built)
        | inr e ↦
            rw e
              (Grown-trans g h (walk_items name is h).0 first (walk_items-Grown name is h first.0))
      ]

  walk_enums-Grown : (es : List (Enum F)) → Grows (walk_enums es)
  unfolding walk_enums
  walk_enums-Grown [] g built = same-Grown g built
  walk_enums-Grown (e ∷ es) g built =
      then_walk-Grown g (walk_items e.name e.items g) (walk_enums es)
        (walk_items-Grown e.name e.items g built) (λ h a. walk_enums-Grown es h a.0)

  walk_structs-Grown : (ss : List (Struct F)) → Grows (walk_structs ss)
  unfolding walk_structs
  walk_structs-Grown [] g built = same-Grown g built
  walk_structs-Grown (s ∷ ss) g built =
      then_walk-Grown g (walk_members s.members s.name g) (walk_structs ss)
        (walk_members-Grown s.members s.name g built) (λ h a. walk_structs-Grown ss h a.0)

-- Whatever the plan, and whether the walk of `buildLayoutGraph` succeeds or not, the number of each
-- node of the graph is its place, and every edge starts at a node of the graph.
pub make_layout_graph-IsBuilt : {F : Type 0} (p : Plan F) → IsBuilt (make_layout_graph p).0
unfolding make_layout_graph Numbered Within
make_layout_graph-IsBuilt p =
    let g : LayoutGraph = record { nodes = []; edges = [] } in
    let enums : LayoutGraph → Walk = λ h. walk_enums p.enums (walk_constants p.constants h) in
    let first = walk_parameters-Grown p.parameters g (tt, tt) in
    let second = then_walk-Grown g (walk_parameters p.parameters g) enums first (λ h a.
      let constants = walk_constants-Grown p.constants h a.0 in
      Grown-trans h (walk_constants p.constants h) (enums h).0 constants
        (walk_enums-Grown p.enums (walk_constants p.constants h) constants.0)) in
    (then_walk-Grown g (walk_parameters p.parameters g then_walk enums) (walk_structs p.structs)
      second (λ h a. walk_structs-Grown p.structs h a.0)).0
