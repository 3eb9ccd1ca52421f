-- ===== src/Plan/LayoutGraph/Validate/Arcs.antt =====
-- plan/LayoutGraph.cpp: the map from symbols to nodes of `validateLayoutGraph`, and the edges between
-- nodes that it makes of the graph's edges.
use embx.Prelude.{
  ℕ, ◌<◌, ◌≡◌, ◌≢◌, refl, sym, arith, true, false, not, none, some, List, [], ◌∷◌, ltb, ◌==◌, In,
  inl, inr, Bool-cases,
}
use embx.Prelude.Map.{nat_key, lookup, contains, contains-lookup}
use embx.Prelude.Result.{Result, ok, ◌>>=◌, ◌>>◌, refuse_if, >>=-eq-ok, refuse_if-eq-ok}
use embx.Core.Symbol.{SymbolId, invalid_symbol_id}
use embx.Plan.Visiting.{seen}
use embx.Plan.LayoutGraph.{LayoutNode, LayoutEdge}
use embx.Plan.LayoutGraph.Validate.{symbol_nodes, target, arcs, adjacent}

abbrev Symbols : Type 0
Symbols = List (SymbolId × ℕ)

-- A node with a symbol is added to a map that does not have the symbol; one without is passed over.
symbol_nodes-cons :
    (n : LayoutNode) (ns : List LayoutNode) (m : Symbols) {m' : Symbols}
    → n.symbol ≢ invalid_symbol_id
    → symbol_nodes (n ∷ ns) m ≡ ok m'
    → (contains n.symbol m ≡ false) × (symbol_nodes ns ((n.symbol, n.id) ∷ m) ≡ ok m')
unfolding symbol_nodes
symbol_nodes-cons n ns m {m'} some_symbol h =
    let other : (n.symbol == invalid_symbol_id) ≡ false = ground arith in
    let h' : (refuse_if (contains n.symbol m) "layout graph contains duplicate SymbolId"
          >> symbol_nodes ns ((n.symbol, n.id) ∷ m))
        ≡ ok m' =
      rw other at h in
    refuse_if-eq-ok (contains n.symbol m) "layout graph contains duplicate SymbolId"
      (symbol_nodes ns ((n.symbol, n.id) ∷ m)) h'

symbol_nodes-pass :
    (n : LayoutNode) (ns : List LayoutNode) (m : Symbols) {m' : Symbols}
    → (n.symbol == invalid_symbol_id) ≡ true
    → symbol_nodes (n ∷ ns) m ≡ ok m'
    → symbol_nodes ns m ≡ ok m'
unfolding symbol_nodes
symbol_nodes-pass n ns m absent h = rw absent at h

lookup-cons :
    (x y : SymbolId) (i j : ℕ) (m : Symbols)
    → contains y m ≡ false
    → lookup x m ≡ some i
    → lookup x ((y, j) ∷ m) ≡ some i
unfolding lookup
lookup-cons x y i j m new h = elim (Bool-cases (y == x)) [
  | inl same ↦
      let equal : y ≡ x = ground arith in
      let missing : lookup x m ≡ none = contains-lookup x m (rw equal at new) in cc
  | inr other ↦ rw other h
]

-- An entry of the map stays.
symbol_nodes-keeps :
    (ns : List LayoutNode) (m : Symbols) {m' : Symbols} (x : SymbolId) {i : ℕ}
    → symbol_nodes ns m ≡ ok m'
    → lookup x m ≡ some i
    → lookup x m' ≡ some i
symbol_nodes-keeps [] m {m'} x {i} h found =
    let same : m ≡ m' = (unfold symbol_nodes in cc) in rw same at found
symbol_nodes-keeps (n ∷ ns) m {m'} x {i} h found =
    elim (Bool-cases (n.symbol == invalid_symbol_id)) [
      | inl absent ↦ symbol_nodes-keeps ns m x (symbol_nodes-pass n ns m absent h) found
      | inr other ↦
          let (new, rest) = symbol_nodes-cons n ns m (ground arith) h in
          symbol_nodes-keeps ns ((n.symbol, n.id) ∷ m) x rest
            (lookup-cons x n.symbol i n.id m new found)
    ]

-- The map has the number of every node with a symbol.
pub symbol_nodes-node :
    (ns : List LayoutNode) (m : Symbols) {m' : Symbols} (b : LayoutNode)
    → symbol_nodes ns m ≡ ok m'
    → In b ns
    → b.symbol ≢ invalid_symbol_id
    → lookup b.symbol m' ≡ some b.id
symbol_nodes-node [] m {m'} b h inside valid = absurd inside
symbol_nodes-node (n ∷ ns) m {m'} b h (inl here) valid =
    let (new, rest) = symbol_nodes-cons n ns m (rw here valid) h in
    let first : lookup b.symbol ((n.symbol, n.id) ∷ m) ≡ some b.id =
      (unfold lookup in rw here (ground arith)) in
    symbol_nodes-keeps ns ((n.symbol, n.id) ∷ m) b.symbol rest first
symbol_nodes-node (n ∷ ns) m {m'} b h (inr later) valid =
    elim (Bool-cases (n.symbol == invalid_symbol_id)) [
      | inl absent ↦ symbol_nodes-node ns m b (symbol_nodes-pass n ns m absent h) later valid
      | inr other ↦
          let (new, rest) = symbol_nodes-cons n ns m (ground arith) h in
          symbol_nodes-node ns ((n.symbol, n.id) ∷ m) b rest later valid
    ]

-- And it has no other entries.
pub symbol_nodes-origin :
    (ns : List LayoutNode) (m : Symbols) {m' : Symbols} (x : SymbolId) {i : ℕ}
    → symbol_nodes ns m ≡ ok m'
    → lookup x m' ≡ some i
    → lookup x m ≡ none
    → (b : LayoutNode) × In b ns × (b.symbol ≡ x)
symbol_nodes-origin [] m {m'} x {i} h found missing =
    let same : m ≡ m' = (unfold symbol_nodes in cc) in
    let found' : lookup x m ≡ some i = rw (sym same) at found in cc
symbol_nodes-origin (n ∷ ns) m {m'} x {i} h found missing =
    elim (Bool-cases (n.symbol == invalid_symbol_id)) [
      | inl absent ↦
          let (b, inside, same) =
            symbol_nodes-origin ns m x (symbol_nodes-pass n ns m absent h) found missing in
          (b, inr inside, same)
      | inr other ↦
          let (new, rest) = symbol_nodes-cons n ns m (ground arith) h in
          elim (Bool-cases (n.symbol == x)) [
            | inl same ↦ (n, inl refl, ground arith)
            | inr differs ↦
                let (b, inside, same) =
                  symbol_nodes-origin ns ((n.symbol, n.id) ∷ m) x rest found
                    (unfold lookup in rw differs missing) in
                (b, inr inside, same)
          ]
    ]

target-lookup : (m : Symbols) (to : SymbolId) {i : ℕ} → target m to ≡ ok i → lookup to m ≡ some i
target-lookup m to h = ground arith

adjacent-first : (n i : ℕ) (others : List (ℕ × ℕ)) → seen i (adjacent n ((n, i) ∷ others)) ≡ true
unfolding adjacent seen
adjacent-first n i others = ground arith

adjacent-later :
    (n t from to : ℕ) (others : List (ℕ × ℕ))
    → seen t (adjacent n others) ≡ true
    → seen t (adjacent n ((from, to) ∷ others)) ≡ true
unfolding adjacent seen
adjacent-later n t from to others h = ground arith

-- An edge that starts at a node, goes to a valid symbol, and stands with the node of that symbol among
-- the pairs.
abbrev pub IsPaired : ℕ → Symbols → List (ℕ × ℕ) → LayoutEdge → Type 0
IsPaired count m pairs e =
    (e.from < count)
    × (e.to ≢ invalid_symbol_id)
    × ((i : ℕ) × (lookup e.to m ≡ some i) × (seen i (adjacent e.from pairs) ≡ true))

IsPaired-cons :
    (count : ℕ) (m : Symbols) (pairs : List (ℕ × ℕ)) (from to : ℕ) (e : LayoutEdge)
    → IsPaired count m pairs e
    → IsPaired count m ((from, to) ∷ pairs) e
IsPaired-cons count m pairs from to e (starts, some_symbol, (i, ends, near)) =
    (starts, some_symbol, (i, ends, adjacent-later e.from i from to pairs near))

-- Every edge is among the pairs.
pub arcs-adjacent :
    (count : ℕ) (m : Symbols) (es : List LayoutEdge) {pairs : List (ℕ × ℕ)}
    → arcs count m es ≡ ok pairs
    → (e : LayoutEdge) → In e es
    → IsPaired count m pairs e
unfolding arcs
arcs-adjacent count m [] h e inside = absurd inside
arcs-adjacent count m (f ∷ es) {pairs} h e inside =
    let later : Result (List (ℕ × ℕ)) =
      target m f.to >>= λ i. arcs count m es >>= λ others. ok ((f.from, i) ∷ others) in
    let (starts, h1) =
      refuse_if-eq-ok (not (ltb f.from count)) "layout graph contains invalid source node"
        (refuse_if (f.to == invalid_symbol_id)
            "layout graph contains unresolved dependency SymbolId"
          >> later)
        h in
    let (some_symbol, h2) =
      refuse_if-eq-ok (f.to == invalid_symbol_id)
        "layout graph contains unresolved dependency SymbolId" later h1 in
    let (i, ends, h3) =
      >>=-eq-ok (target m f.to) (λ i. arcs count m es >>= λ others. ok ((f.from, i) ∷ others)) h2 in
    let (others, rest, h4) = >>=-eq-ok (arcs count m es) (λ others. ok ((f.from, i) ∷ others)) h3 in
    let all : ((f.from, i) ∷ others) ≡ pairs = cc in
    elim inside [
      | inl here ↦
          let first : IsPaired count m ((f.from, i) ∷ others) f = (
            ground arith,
            ground arith,
            (i, target-lookup m f.to ends, adjacent-first f.from i others),
          ) in
          let paired : IsPaired count m pairs f = rw all at first in rw here at paired
      | inr below ↦
          let later_edge =
            IsPaired-cons count m others f.from i e (arcs-adjacent count m es rest e below) in
          rw all at later_edge
    ]
