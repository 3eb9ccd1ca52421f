-- ===== src/Plan/LayoutGraph/Edges.antt =====
-- plan/LayoutGraph.cpp: the edges that `addExprEdges` adds.
use embx.Prelude.{
  ℕ, ◌≡◌, ◌≢◌, ◌↔◌, refl, sym, ap, ◌∙◌, arith, ◌⊎◌, inl, inr, Bool-cases, String, List, [], ◌∷◌,
  ◌++◌, In, In-append_left, In-append_right, In-append_cases,
}
use embx.Prelude.Result.{Result, ok, err}
use embx.Core.Symbol.{SymbolId, valid, invalid_symbol_id}
use embx.Core.Expr.{Expr}
use embx.Plan.LayoutGraph.{
  LayoutGraph, LayoutEdge, edge, is_builtin, collect, expr_text, add_edges, add_expr_edges,
}
use embx.Plan.LayoutGraph.Occurs.{
  Occurs, IsBuiltin, Occurs-collect, collect-Occurs, is_builtin-IsBuiltin,
}

-- An edge for an identifier that is no builtin, from the node to the identifier's symbol.
abbrev pub IsEdgeOf : (String → SymbolId → Type 0) → String → ℕ → LayoutEdge → Type 0
IsEdgeOf At text from e =
    (name : String) × (ref : SymbolId) × At name ref
    × (¬ IsBuiltin name ref)
    × (e ≡ edge from ref text)

Builtin-path :
    {t name : String} {s ref : SymbolId}
    → ◌≡◌ {A = String × SymbolId} (t, s) (name, ref)
    → IsBuiltin t s
    → IsBuiltin name ref
Builtin-path same b =
    let text = ap (λ (q : String × SymbolId). q.0) same in
    let to = ap (λ (q : String × SymbolId). q.1) same in rw (text, to) at b

-- What the loop leaves, over the identifiers that are `At`: with success, the edges before and those of
-- the identifiers, all of which have a symbol; or a refusal, where one of them has none.
abbrev pub Outcome :
    (String → SymbolId → Type 0)
    → String
    → ℕ
    → LayoutGraph
    → LayoutGraph × Result (Unit {0})
    → Type 0
Outcome At text from g (g', ok done) =
    (g'.nodes ≡ g.nodes)
    × ((e : LayoutEdge) → In e g'.edges ↔ (In e g.edges ⊎ IsEdgeOf At text from e))
    × ((name : String) (ref : SymbolId)
        → At name ref
        → IsBuiltin name ref ⊎ (ref ≢ invalid_symbol_id))
Outcome At text from g (g', err message) =
    (g'.nodes ≡ g.nodes)
    × ((name : String) × At name invalid_symbol_id × (¬ IsBuiltin name invalid_symbol_id))

abbrev Found : List (String × SymbolId) → String → SymbolId → Type 0
Found ids name ref = In {A = String × SymbolId} (name, ref) ids

Outcome-iff :
    (At There : String → SymbolId → Type 0)
    → ((name : String) (ref : SymbolId) → At name ref ↔ There name ref)
    → (text : String) (from : ℕ) (g : LayoutGraph) (r : LayoutGraph × Result (Unit {0}))
    → Outcome At text from g r
    → Outcome There text from g r
Outcome-iff At There same text from g (g', ok done) (nodes, edges, resolved) = (
  nodes,
  (λ e. (
    (λ h. elim ((edges e).0 h) [
      | inl old ↦ inl old
      | inr (name, ref, at, plain, is) ↦ inr (name, ref, (same name ref).0 at, plain, is)
    ]),
    (λ h. (edges e).1 (elim h [
      | inl old ↦ inl old
      | inr (name, ref, at, plain, is) ↦ inr (name, ref, (same name ref).1 at, plain, is)
    ])),
  )),
  (λ name ref at. resolved name ref ((same name ref).1 at)),
)
Outcome-iff At There same text from g (g', err message) (nodes, (name, at, plain)) =
    (nodes, (name, (same name invalid_symbol_id).0 at, plain))

Outcome-builtin :
    (t : String) (s : SymbolId) (ids : List (String × SymbolId)) (text : String) (from : ℕ)
    (g : LayoutGraph) (r : LayoutGraph × Result (Unit {0}))
    → IsBuiltin t s
    → Outcome (Found ids) text from g r
    → Outcome (Found ((t, s) ∷ ids)) text from g r
Outcome-builtin t s ids text from g (g', ok done) b (nodes, edges, resolved) = (
  nodes,
  (λ e. (
    (λ h. elim ((edges e).0 h) [
      | inl old ↦ inl old
      | inr (name, ref, at, plain, is) ↦ inr (name, ref, inr at, plain, is)
    ]),
    (λ h. (edges e).1 (elim h [
      | inl old ↦ inl old
      | inr (name, ref, inl at, plain, is) ↦ absurd (plain (Builtin-path at b))
      | inr (name, ref, inr at, plain, is) ↦ inr (name, ref, at, plain, is)
    ])),
  )),
  (λ name ref at. elim at [
    | inl first ↦ inl (Builtin-path first b)
    | inr later ↦ resolved name ref later
  ]),
)
Outcome-builtin t s ids text from g (g', err message) b (nodes, (name, at, plain)) =
    (nodes, (name, inr at, plain))

Outcome-edge :
    (t : String) (s : SymbolId) (ids : List (String × SymbolId)) (text : String) (from : ℕ)
    (g : LayoutGraph) (r : LayoutGraph × Result (Unit {0}))
    → (¬ IsBuiltin t s)
    → s ≢ invalid_symbol_id
    → Outcome (Found ids) text from (record g { edges = g.edges ++ (edge from s text ∷ []) }) r
    → Outcome (Found ((t, s) ∷ ids)) text from g r
Outcome-edge t s ids text from g (g', ok done) plain valid_id (nodes, edges, resolved) = (
  nodes,
  (λ e. (
    (λ h. elim ((edges e).0 h) [
      | inl old ↦ elim (In-append_cases e g.edges (edge from s text ∷ []) old) [
        | inl before ↦ inl before
        | inr (inl new) ↦ inr (t, s, inl refl, plain, sym new)
        | inr (inr never) ↦ absurd never
      ]
      | inr (name, ref, at, ordinary, is) ↦ inr (name, ref, inr at, ordinary, is)
    ]),
    (λ h. (edges e).1 (elim h [
      | inl old ↦ inl (In-append_left e g.edges (edge from s text ∷ []) old)
      | inr (name, ref, inl first, ordinary, is) ↦ inl (
          In-append_right e g.edges (edge from s text ∷ [])
            (inl (ap (λ (q : String × SymbolId). edge from q.1 text) first ∙ sym is)))
      | inr (name, ref, inr later, ordinary, is) ↦ inr (name, ref, later, ordinary, is)
    ])),
  )),
  (λ name ref at. elim at [
    | inl first ↦
        inr (let to : s ≡ ref = ap (λ (q : String × SymbolId). q.1) first in rw to at valid_id)
    | inr later ↦ resolved name ref later
  ]),
)
Outcome-edge t s ids text from g (g', err message) plain valid_id (nodes, (name, at, ordinary)) =
    (nodes, (name, inr at, ordinary))

add_edges-Outcome :
    (ids : List (String × SymbolId)) (text : String) (from : ℕ) (g : LayoutGraph)
    → Outcome (Found ids) text from g (add_edges ids text from g)
unfolding add_edges
add_edges-Outcome [] text from g = (
  refl,
  (λ e. ((λ h. inl h), (λ h. elim h [ inl old ↦ old | inr (n, r, never, p, i) ↦ absurd never ]))),
  (λ name ref h. absurd h),
)
add_edges-Outcome ((t, s) ∷ ids) text from g = elim (Bool-cases (is_builtin (t, s))) [
  | inl b ↦ rw b (
      Outcome-builtin t s ids text from g (add_edges ids text from g)
        ((is_builtin-IsBuiltin t s).0 b) (add_edges-Outcome ids text from g))
  | inr nb ↦
      let plain : ¬ IsBuiltin t s = λ is. let yes_it_is = (is_builtin-IsBuiltin t s).1 is in cc in
      elim (Bool-cases (valid s)) [
        | inl v ↦
            let next : LayoutGraph = record g { edges = g.edges ++ (edge from s text ∷ []) } in
            rw (nb, v)
              (Outcome-edge t s ids text from g (add_edges ids text from next) plain (ground arith)
                (add_edges-Outcome ids text from next))
        | inr nv ↦
            let none_valid : s ≡ invalid_symbol_id = ground arith in
            rw (nb, nv)
              (refl, (t, inl (ap (λ (q : SymbolId). (t, q)) none_valid), rw none_valid at plain))
      ]
]

-- Where `addExprEdges` succeeds, the edges are those of the graph before and, for each identifier of
-- the expression that is no builtin, one from the node to the identifier's symbol, with the text of
-- the expression; and every identifier is a builtin or has a valid identity. Where it refuses, an
-- identifier that is no builtin has none. Either way the nodes stay.
pub add_expr_edges-Added :
    (e : Expr) (from : ℕ) (g : LayoutGraph)
    → Outcome (λ name ref. Occurs name ref e) (expr_text e) from g (add_expr_edges e from g)
unfolding add_expr_edges
add_expr_edges-Added e from g =
    Outcome-iff (Found (collect e)) (λ name ref. Occurs name ref e)
      (λ name ref. (collect-Occurs name ref e, Occurs-collect name ref e)) (expr_text e) from g
      (add_edges (collect e) (expr_text e) from g)
      (add_edges-Outcome (collect e) (expr_text e) from g)
