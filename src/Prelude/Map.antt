-- ===== src/Prelude/Map.antt =====
-- `std::unordered_map` as an association list. The program reads a map by its keys; where it goes
-- through all entries, the order of the list stands for the map's own order.
use embx.Prelude.{
  ℕ, ◌≡◌, ◌↔◌, refl, String, Bool, true, false, Option, none, some, List, [], ◌∷◌, arith, ◌==◌,
  ==_iff, str_eq, str_eq_iff, if◌then◌else◌,
}

pub record Key {ℓ} (K : Type ℓ) : Type ℓ where
  pub same : K → K → Bool
  pub same_iff : (a b : K) → (same a b ≡ true) ↔ (a ≡ b)

abbrev nat_same : ℕ → ℕ → Bool
nat_same a b = a == b

instance abbrev pub nat_key : Key ℕ
nat_key = record { same = nat_same; same_iff = ==_iff }

instance abbrev pub text_key : Key String
text_key = record { same = str_eq; same_iff = str_eq_iff }

module _ {ℓ κ} {K : Type ℓ} {V : Type κ} ⦃k : Key K⦄ where
  -- `find`, with `end()` as `none`.
  unfoldable pub lookup : K → List (K × V) → Option V
  lookup a [] = none
  lookup a ((b, v) ∷ m) = if k.same b a then some v else lookup a m

  unfoldable pub contains : K → List (K × V) → Bool
  contains a [] = false
  contains a ((b, v) ∷ m) = if k.same b a then true else contains a m

  -- `m[a] = v`
  unfoldable pub assign : K → V → List (K × V) → List (K × V)
  assign a v [] = (a, v) ∷ []
  assign a v ((b, w) ∷ m) = if k.same b a then (b, v) ∷ m else (b, w) ∷ assign a v m

  -- `emplace`, which leaves an entry that is there.
  unfoldable pub emplace : K → V → List (K × V) → List (K × V)
  unfolding contains
  emplace a v m = if contains a m then m else (a, v) ∷ m

  pub lookup-assign :
      (a b : K) (v : V) (m : List (K × V))
      → lookup b (assign a v m) ≡ (if k.same a b then some v else lookup b m)
  unfolding lookup assign
  lookup-assign a b v [] = refl
  lookup-assign a b v ((c, w) ∷ m) =
      ground (arith, k.same_iff c a, k.same_iff c b, k.same_iff a b, lookup-assign a b v m)

  pub contains-lookup : (a : K) (m : List (K × V)) → contains a m ≡ false → lookup a m ≡ none
  unfolding lookup contains
  contains-lookup a [] h = refl
  contains-lookup a ((b, v) ∷ m) h = ground (arith, contains-lookup a m)

  pub lookup-emplace_new :
      (a b : K) (v : V) (m : List (K × V))
      → contains a m ≡ false
      → lookup b (emplace a v m) ≡ (if k.same a b then some v else lookup b m)
  unfolding emplace lookup
  lookup-emplace_new a b v m new = rw new
