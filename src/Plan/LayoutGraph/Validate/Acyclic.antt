-- ===== src/Plan/LayoutGraph/Validate/Acyclic.antt =====
-- plan/LayoutGraph.cpp: an accepted graph has no cycle. The done nodes are in an order in which each
-- stands before all that it depends on.
use embx.Prelude.{
  ℕ, zero, suc, ◌+◌, ◌≤◌, ◌<◌, ◌≡◌, arith, String, ◌+s◌, true, List, [], ◌∷◌, ◌==◌, if◌then◌else◌,
  length, get_elem?, In, refl, some, inl, inr, Bool-cases,
}
use embx.Prelude.Result.{
  Result, ok, err, >>=-eq-ok, Yields, >>=-Yields, if-Yields, Yields-ok, Yields-map,
}
use embx.Prelude.Map.{nat_key, lookup}
use embx.Plan.Visiting.{seen}
use embx.Plan.LayoutGraph.{LayoutNode, LayoutEdge, LayoutGraph}
use embx.Plan.LayoutGraph.Validate.{
  symbol_nodes, arcs, adjacent, node_text, visit_all, search_from, dfs, search,
  validate_layout_graph,
}
use embx.Plan.LayoutGraph.Validate.Arcs.{symbol_nodes-node, symbol_nodes-origin, arcs-adjacent}

abbrev Keeps : List ℕ → List ℕ → Type 0
Keeps d d' = (t : ℕ) → seen t d ≡ true → seen t d' ≡ true

seen-here : (n : ℕ) (d : List ℕ) → seen n (n ∷ d) ≡ true
unfolding seen
seen-here n d = ground arith

seen-later : (n t : ℕ) (d : List ℕ) → seen t d ≡ true → seen t (n ∷ d) ≡ true
unfolding seen
seen-later n t d h = ground arith

module _ (pairs : List (ℕ × ℕ)) where
  unfoldable Sorted : List ℕ → Type 0
  Sorted [] = Unit {0}
  Sorted (n ∷ d) = Keeps (adjacent n pairs) d × Sorted d

  Sorted-none : Sorted []
  unfolding Sorted
  Sorted-none = tt

  abbrev Visited : ℕ → List ℕ → List ℕ → Type 0
  Visited n d d' = Sorted d' × Keeps d d' × (seen n d' ≡ true)

  abbrev AllVisited : List ℕ → List ℕ → List ℕ → Type 0
  AllVisited ns d d' = Sorted d' × Keeps d d' × Keeps ns d'

  visit_all-Visited :
      (visit : ℕ → List ℕ → Result (List ℕ))
      → ((n : ℕ) (d : List ℕ) → Sorted d → Yields (Visited n d) (visit n d))
      → (ns d : List ℕ) → Sorted d
      → Yields (AllVisited ns d) (visit_all visit ns d)
  unfolding visit_all seen
  visit_all-Visited visit visited [] d sorted = (sorted, (λ t h. h), (λ t h. cc))
  visit_all-Visited visit visited (n ∷ ns) d sorted =
      >>=-Yields (Visited n d) (AllVisited (n ∷ ns) d) (visit n d) (λ d'. visit_all visit ns d')
        (visited n d sorted)
        (λ d' one.
          Yields-map (AllVisited ns d') (AllVisited (n ∷ ns) d) (visit_all visit ns d')
            (visit_all-Visited visit visited ns d' one.0)
            (λ e all. (
              all.0,
              (λ t h. all.1 t (one.1 t h)),
              (λ t h. elim (Bool-cases (n == t)) [
                | inl same ↦ let equal : n ≡ t = ground arith in all.1 t (rw equal at one.2)
                | inr other ↦ all.2 t (rw other at h)
              ]),
            )))

  module _ (nodes : List LayoutNode) where
    search_from-Visited :
        (visit : ℕ → List ℕ → Result (List ℕ))
        → ((n : ℕ) (d : List ℕ) → Sorted d → Yields (Visited n d) (visit n d))
        → (n : ℕ) (d : List ℕ) → Sorted d
        → Yields (Visited n d) (search_from nodes pairs visit n d)
    unfolding Sorted
    search_from-Visited visit visited n d sorted =
        >>=-Yields (AllVisited (adjacent n pairs) d) (Visited n d)
          (visit_all visit (adjacent n pairs) d) (λ d'. ok (n ∷ d'))
          (visit_all-Visited visit visited (adjacent n pairs) d sorted)
          (λ d' all. ((all.2, all.0), (λ t h. seen-later n t d' (all.1 t h)), seen-here n d'))

    dfs-Visited :
        (message : String) (fuel : ℕ) (path : List ℕ) (n : ℕ) (d : List ℕ)
        → Sorted d
        → Yields (Visited n d) (dfs nodes pairs (err message) fuel path n d)
    unfolding dfs
    dfs-Visited message zero path n d sorted = tt
    dfs-Visited message (suc fuel) path n d sorted =
        let next = search_from nodes pairs (dfs nodes pairs (err message) fuel (n ∷ path)) n d in
        if-Yields (Visited n d) (seen n path)
          (err ("layout dependency cycle detected at: " +s node_text (get_elem? nodes n)))
          (if seen n d then ok d else next) (λ _. tt)
          (λ _.
            if-Yields (Visited n d) (seen n d) (ok d) next (λ old. (sorted, (λ t h. h), old))
              (λ new.
                search_from-Visited (dfs nodes pairs (err message) fuel (n ∷ path))
                  (dfs-Visited message fuel (n ∷ path)) n d sorted))

    -- Behind the search over all nodes from `i` on, these are done.
    abbrev Done : ℕ → ℕ → List ℕ → List ℕ → Type 0
    Done left i d d' = Sorted d' × Keeps d d' × ((n : ℕ) → i ≤ n → n < i + left → seen n d' ≡ true)

    search-Done :
        (left i : ℕ) (d : List ℕ) → Sorted d → Yields (Done left i d) (search nodes pairs left i d)
    unfolding search
    search-Done zero i d sorted = (sorted, (λ t h. h), (λ n lo hi. absurd (omega arith)))
    search-Done (suc left) i d sorted =
        >>=-Yields (Visited i d) (Done (suc left) i d)
          (dfs nodes pairs (err "out of fuel") (suc (length nodes)) [] i d)
          (λ d'. search nodes pairs left (suc i) d')
          (dfs-Visited "out of fuel" (suc (length nodes)) [] i d sorted)
          (λ d' one.
            Yields-map (Done left (suc i) d') (Done (suc left) i d)
              (search nodes pairs left (suc i) d') (search-Done left (suc i) d' one.0)
              (λ e all. (
                all.0,
                (λ t h. all.1 t (one.1 t h)),
                (λ n lo hi. elim (Bool-cases (i == n)) [
                  | inl same ↦ let equal : i ≡ n = ground arith in all.1 n (rw equal at one.2)
                  | inr other ↦ all.2 n (ground arith) (omega arith)
                ]),
              )))

  -- The number of the nodes from the last place of a node on.
  unfoldable rank : List ℕ → ℕ → ℕ
  rank [] t = 0
  rank (n ∷ d) t = if seen t d then rank d t else suc (length d)

  rank-le : (d : List ℕ) (t : ℕ) → rank d t ≤ length d
  unfolding rank
  rank-le [] t = omega arith
  rank-le (n ∷ d) t = ground (arith, rank-le d t)

  Sorted-closed :
      (d : List ℕ) (n t : ℕ)
      → Sorted d
      → seen n d ≡ true
      → seen t (adjacent n pairs) ≡ true
      → seen t d ≡ true
  unfolding Sorted seen
  Sorted-closed [] n t sorted h a = cc
  Sorted-closed (m ∷ d) n t sorted h a = elim (Bool-cases (m == n)) [
    | inl same ↦ let equal : n ≡ m = ground arith in seen-later m t d (sorted.0 t (rw equal at a))
    | inr other ↦ seen-later m t d (Sorted-closed d n t sorted.1 (rw other at h) a)
  ]

  rank-lt :
      (d : List ℕ) (n t : ℕ)
      → Sorted d
      → seen n d ≡ true
      → seen t (adjacent n pairs) ≡ true
      → rank d t < rank d n
  unfolding Sorted seen rank
  rank-lt [] n t sorted h a = cc
  rank-lt (m ∷ d) n t sorted h a = elim (Bool-cases (seen n d)) [
    | inl below ↦ rw (below, Sorted-closed d n t sorted.1 below a) (rank-lt d n t sorted.1 below a)
    | inr here ↦
        let equal : n ≡ m = ground arith in
        let inside : seen t d ≡ true = sorted.0 t (rw equal at a) in
        let small = rank-le d t in rw (here, inside) (omega arith)
  ]

-- The search over the nodes gives numbers that go down along every pair.
search-number :
    (nodes : List LayoutNode) (pairs : List (ℕ × ℕ)) {done : List ℕ}
    → search nodes pairs (length nodes) 0 [] ≡ ok done
    → (n t : ℕ) → n < length nodes
    → seen t (adjacent n pairs) ≡ true
    → rank pairs done t < rank pairs done n
search-number nodes pairs {done} found n t lt a =
    let (sorted, kept, all) =
      Yields-ok (Done pairs nodes (length nodes) 0 []) (search nodes pairs (length nodes) 0 [])
        (search-Done pairs nodes (length nodes) 0 [] (Sorted-none pairs)) found in
    rank-lt pairs done n t sorted (all n (omega arith) (omega arith)) a

-- The edges of a graph, each with the number of the node that declares its symbol: they start at a
-- node, and end at one.
abbrev pub Declares : List LayoutNode → LayoutEdge → Type 0
Declares nodes e = (e.from < length nodes) × ((b : LayoutNode) × In b nodes × (b.symbol ≡ e.to))

-- Where `validateLayoutGraph` accepts a graph, every edge starts at a node of the graph and goes to
-- the symbol of one; and there is a number for each node such that every edge goes from a node to one
-- with a smaller number, so that no path along edges comes back to its start.
pub validate_layout_graph-acyclic :
    (g : LayoutGraph)
    → validate_layout_graph g ≡ ok tt
    → (number : ℕ → ℕ) × ((e : LayoutEdge) → In e g.edges → Declares g.nodes e)
      × ((e : LayoutEdge) (b : LayoutNode)
          → In e g.edges
          → In b g.nodes
          → b.symbol ≡ e.to
          → number b.id < number e.from)
unfolding validate_layout_graph
validate_layout_graph-acyclic g h =
    let (m, symbols, h1) = >>=-eq-ok (symbol_nodes g.nodes []) _ h in
    let (pairs, edges, h2) = >>=-eq-ok (arcs (length g.nodes) m g.edges) _ h1 in
    let (done, found, h3) = >>=-eq-ok (search g.nodes pairs (length g.nodes) 0 []) _ h2 in
    (
      rank pairs done,
      (λ e inside.
          let (starts, some_symbol, (i, ends, near)) =
            arcs-adjacent (length g.nodes) m g.edges edges e inside in
          (starts, symbol_nodes-origin g.nodes [] e.to symbols ends (unfold lookup in refl))),
      (λ e b inside node to.
          let (starts, some_symbol, (i, ends, near)) =
            arcs-adjacent (length g.nodes) m g.edges edges e inside in
          let place = symbol_nodes-node g.nodes [] b symbols node (rw to some_symbol) in
          let same : i ≡ b.id = let place' : lookup e.to m ≡ some b.id = rw to at place in cc in
          search-number g.nodes pairs found e.from b.id starts (rw same at near)),
    )
