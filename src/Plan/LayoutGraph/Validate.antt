-- ===== src/Plan/LayoutGraph/Validate.antt =====
-- plan/LayoutGraph.cpp: `validateLayoutGraph`. A node whose state is 1 is on the path of the search,
-- one whose state is 2 is among the done. A step along an edge takes one from the fuel, whose end
-- gives `stop`; the number of nodes is enough.
pub mod Acyclic
pub mod Arcs
pub mod Fuel
use embx.Prelude.{
  ℕ, zero, suc, ◌+◌, String, ◌+s◌, Bool, true, false, not, Option, none, some, List, [], ◌∷◌, ltb,
  ◌==◌, if◌then◌else◌, length, get_elem?,
}
use embx.Prelude.Map.{nat_key, lookup, contains}
use embx.Prelude.Result.{Result, ok, err, ◌>>=◌, ◌>>◌, refuse_if}
use embx.Core.Symbol.{SymbolId, invalid_symbol_id}
use embx.Plan.Visiting.{seen}
use embx.Plan.LayoutGraph.{LayoutNode, LayoutEdge, LayoutGraph}

-- The node of each symbol.
unfoldable pub symbol_nodes : List LayoutNode → List (SymbolId × ℕ) → Result (List (SymbolId × ℕ))
symbol_nodes [] m = ok m
symbol_nodes (n ∷ ns) m =
    if n.symbol == invalid_symbol_id
    then symbol_nodes ns m
    else refuse_if (contains n.symbol m) "layout graph contains duplicate SymbolId"
      >> symbol_nodes ns ((n.symbol, n.id) ∷ m)

abbrev pub target : List (SymbolId × ℕ) → SymbolId → Result ℕ
target m to = elim (lookup to m) [
  | none ↦ err "layout graph dependency targets undeclared SymbolId"
  | some i ↦ ok i
]

-- The edges between nodes; `adj` has those from a node in this order.
unfoldable pub arcs : ℕ → List (SymbolId × ℕ) → List LayoutEdge → Result (List (ℕ × ℕ))
arcs count m [] = ok []
arcs count m (e ∷ es) =
    refuse_if (not (ltb e.from count)) "layout graph contains invalid source node"
    >> (refuse_if (e.to == invalid_symbol_id) "layout graph contains unresolved dependency SymbolId"
        >> (target m e.to >>= λ i. arcs count m es >>= λ others. ok ((e.from, i) ∷ others)))

unfoldable pub adjacent : ℕ → List (ℕ × ℕ) → List ℕ
adjacent n [] = []
adjacent n ((from, to) ∷ others) = if from == n then to ∷ adjacent n others else adjacent n others

abbrev pub node_text : Option LayoutNode → String
node_text none = ""
node_text (some n) = n.owner +s "." +s n.name

-- The loop over the neighbours of a node.
unfoldable pub visit_all : (ℕ → List ℕ → Result (List ℕ)) → List ℕ → List ℕ → Result (List ℕ)
visit_all visit [] done = ok done
visit_all visit (n ∷ ns) done = visit n done >>= λ done'. visit_all visit ns done'

module _ (nodes : List LayoutNode) (pairs : List (ℕ × ℕ)) where
  abbrev pub search_from : (ℕ → List ℕ → Result (List ℕ)) → ℕ → List ℕ → Result (List ℕ)
  search_from visit n done = visit_all visit (adjacent n pairs) done >>= λ done'. ok (n ∷ done')

  -- `dfs` of a node: the done nodes, the last one first.
  unfoldable pub dfs : Result (List ℕ) → ℕ → List ℕ → ℕ → List ℕ → Result (List ℕ)
  dfs stop zero path n done = stop
  dfs stop (suc fuel) path n done =
      if seen n path
      then err ("layout dependency cycle detected at: " +s node_text (get_elem? nodes n))
      else if seen n done
      then ok done
      else search_from (dfs stop fuel (n ∷ path)) n done

  unfoldable pub search : ℕ → ℕ → List ℕ → Result (List ℕ)
  search zero i done = ok done
  search (suc left) i done =
      dfs (err "out of fuel") (suc (length nodes)) [] i done >>= λ done'. search left (suc i) done'

unfoldable pub validate_layout_graph : LayoutGraph → Result (Unit {0})
validate_layout_graph g = symbol_nodes g.nodes [] >>= λ m.
    arcs (length g.nodes) m g.edges >>= λ pairs.
    search g.nodes pairs (length g.nodes) 0 [] >>= λ done. ok tt
