-- ===== src/Plan/LayoutGraph/Validate/Fuel.antt =====
-- plan/LayoutGraph.cpp: the fuel of the search for cycles. Only a node with edges is passed on the way
-- to another, and each such node is one of the graph's.
use mathlib.Core.Path.{fun_ext}
use embx.Prelude.{
  ℕ, zero, suc, ◌+◌, ◌≤◌, ◌<◌, ◌≡◌, refl, arith, false, not, some, List, [], ◌∷◌, ◌==◌, ltb, length,
  inl, inr, Bool-cases,
}
use embx.Prelude.Map.{nat_key, lookup}
use embx.Prelude.Result.{Result, ok, >>=-eq-ok, refuse_if-eq-ok}
use embx.Core.Symbol.{SymbolId, invalid_symbol_id}
use embx.Plan.Visiting.{seen, unvisited, unvisited-le-length, unvisited-lt}
use embx.Plan.LayoutGraph.{LayoutNode, LayoutEdge, LayoutGraph}
use embx.Plan.LayoutGraph.Validate.{target, arcs, adjacent, visit_all, dfs}

unfoldable places : ℕ → List (ℕ × ℕ)
places zero = []
places (suc n) = (n, n) ∷ places n

length-places : (n : ℕ) → length (places n) ≡ n
unfolding places
length-places zero = refl
length-places (suc n) = omega (arith, length-places n)

place-found : (count n : ℕ) → n < count → (i : ℕ) × (lookup n (places count) ≡ some i)
unfolding places lookup
place-found zero n lt = absurd (omega arith)
place-found (suc count) n lt = elim (Bool-cases (count == n)) [
  | inl same ↦ (count, rw same refl)
  | inr other ↦ let (i, e) = place-found count n (ground arith) in (i, rw other e)
]

adjacent-nil : (n : ℕ) → adjacent n [] ≡ []
unfolding adjacent
adjacent-nil n = refl

adjacent-other :
    (n from to : ℕ) (others : List (ℕ × ℕ))
    → (from == n) ≡ false
    → adjacent n others ≡ []
    → adjacent n ((from, to) ∷ others) ≡ []
unfolding adjacent
adjacent-other n from to others other h = rw other h

-- A node that is none of the graph's has no edges.
adjacent-none :
    (count : ℕ) (m : List (SymbolId × ℕ)) (es : List LayoutEdge) (n : ℕ) {pairs : List (ℕ × ℕ)}
    → arcs count m es ≡ ok pairs
    → count ≤ n
    → adjacent n pairs ≡ []
unfolding arcs
adjacent-none count m [] n {pairs} h out = let e : [] ≡ pairs = cc in rw⁻¹ e (adjacent-nil n)
adjacent-none count m (e ∷ es) n {pairs} h out =
    let (inside, h1) =
      refuse_if-eq-ok (not (ltb e.from count)) "layout graph contains invalid source node" _ h in
    let (good, h2) =
      refuse_if-eq-ok (e.to == invalid_symbol_id)
        "layout graph contains unresolved dependency SymbolId" _ h1 in
    let (i, to, h3) = >>=-eq-ok (target m e.to) _ h2 in
    let (others, later, h4) = >>=-eq-ok (arcs count m es) _ h3 in
    let same : (e.from, i) ∷ others ≡ pairs = cc in
    rw⁻¹ same
      (adjacent-other n e.from i others (ground arith) (adjacent-none count m es n later out))

module _ (nodes : List LayoutNode) (pairs : List (ℕ × ℕ)) (count : ℕ)
    (closed : (n : ℕ) → count ≤ n → adjacent n pairs ≡ []) where
  dfs-agree :
      (stop stop' : Result (List ℕ)) (fuel fuel' : ℕ) (path : List ℕ) (n : ℕ) (d : List ℕ)
      → unvisited path (places count) < fuel
      → unvisited path (places count) < fuel'
      → dfs nodes pairs stop fuel path n d ≡ dfs nodes pairs stop' fuel' path n d
  unfolding dfs visit_all
  dfs-agree stop stop' zero fuel' path n d a b = absurd (omega arith)
  dfs-agree stop stop' (suc fuel) zero path n d a b = absurd (omega arith)
  dfs-agree stop stop' (suc fuel) (suc fuel') path n d a b = elim (Bool-cases (seen n path)) [
    | inl gray ↦ rw gray refl
    | inr fresh ↦ elim (Bool-cases (ltb n count)) [
      | inr out ↦
          let none_next : adjacent n pairs ≡ [] = closed n (ground arith) in
          rw (fresh, none_next) refl
      | inl inside ↦
          let (i, e) = place-found count n (ground arith) in
          let less : unvisited (n ∷ path) (places count) < unvisited path (places count) =
            unvisited-lt n path (places count) fresh e in
          let next : dfs nodes pairs stop fuel (n ∷ path) ≡ dfs nodes pairs stop' fuel' (n ∷ path) =
            fun_ext (λ t.
              fun_ext (λ f.
                dfs-agree stop stop' fuel fuel' (n ∷ path) t f (omega arith) (omega arith))) in
          rw (fresh, next) refl
    ]
  ]

-- The search for cycles from a node ends on every graph whose edges were accepted, one with cycles
-- included: whatever stands for the end of the fuel, and whatever fuel is added, the result is the
-- same.
pub dfs-ends :
    (g : LayoutGraph) (m : List (SymbolId × ℕ)) {pairs : List (ℕ × ℕ)}
    (stop stop' : Result (List ℕ)) (extra n : ℕ) (d : List ℕ)
    → arcs (length g.nodes) m g.edges ≡ ok pairs
    → dfs g.nodes pairs stop (suc (length g.nodes) + extra) [] n d
      ≡ dfs g.nodes pairs stop' (suc (length g.nodes)) [] n d
dfs-ends g m {pairs} stop stop' extra n d h =
    let count = length g.nodes in
    let small = unvisited-le-length [] (places count) in
    let size = length-places count in
    dfs-agree g.nodes pairs count (λ k out. adjacent-none count m g.edges k h out) stop stop'
      (suc count + extra) (suc count) [] n d (omega arith) (omega arith)
