-- ===== src/Plan/Visiting.antt =====
-- plan/PlanBuilder.cpp: the set of the symbols whose types are being visited. A symbol that is in the
-- set is a cycle, so each step into a type finds one symbol fewer outside the set.
use embx.Prelude.{
  ℕ, ◌+◌, ◌≤◌, ◌<◌, ◌≡◌, arith, Bool, true, false, some, List, [], ◌∷◌, ◌==◌, length, if◌then◌else◌,
}
use embx.Prelude.Map.{nat_key, lookup}
use embx.Core.Symbol.{SymbolId}

-- `visiting.count(id)`
unfoldable pub seen : SymbolId → List SymbolId → Bool
seen id [] = false
seen id (v ∷ vs) = if v == id then true else seen id vs

unfoldable pub unvisited : List SymbolId → List (SymbolId × ℕ) → ℕ
unvisited visiting [] = 0
unvisited visiting ((k, i) ∷ m) = (if seen k visiting then 0 else 1) + unvisited visiting m

pub unvisited-le-length :
    (visiting : List SymbolId) (m : List (SymbolId × ℕ)) → unvisited visiting m ≤ length m
unfolding unvisited
unvisited-le-length visiting [] = omega arith
unvisited-le-length visiting ((k, i) ∷ m) = ground (arith, unvisited-le-length visiting m)

pub unvisited-cons :
    (id : SymbolId) (visiting : List SymbolId) (m : List (SymbolId × ℕ))
    → unvisited (id ∷ visiting) m ≤ unvisited visiting m
unfolding unvisited seen
unvisited-cons id visiting [] = omega arith
unvisited-cons id visiting ((k, i) ∷ m) = ground (arith, unvisited-cons id visiting m)

pub unvisited-lt :
    (id : SymbolId) (visiting : List SymbolId) (m : List (SymbolId × ℕ)) {i : ℕ}
    → seen id visiting ≡ false
    → lookup id m ≡ some i
    → unvisited (id ∷ visiting) m < unvisited visiting m
unfolding unvisited seen lookup
unvisited-lt id visiting [] {i} s h = cc
unvisited-lt id visiting ((k, j) ∷ m) {i} s h =
    ground (arith, unvisited-cons id visiting m, unvisited-lt id visiting m {i = i} s)
