-- ===== src/Core/Symbol/Laws.antt =====
-- core/Symbol.h: what a declaration adds to a symbol table or a scope, and what it leaves.
use embx.Prelude.{
  ℕ, zero, suc, ◌+◌, ◌-◌, ◌≤◌, ◌<◌, ◌≡◌, ◌≢◌, refl, ◌∙◌, ◌⊎◌, inl, inr, String, Bool, true, false,
  ◌||◌, none, some, List, [], ◌∷◌, ◌++◌, arith, ltb, ◌==◌, str_eq, str_eq_iff, if◌then◌else◌,
  length, get_elem?, length-append, Bool-cases,
}
use embx.Prelude.Map.{contains, text_key, lookup-emplace_new}
use embx.Core.Symbol.{
  SymbolId, SymbolKind, Scope, root, child, declare_in, resolve_in, SymbolTable, append, declare,
  find, find_id, invalid_symbol_id,
}

get_elem?-append_old :
    {A : Type 0} (xs ys : List A) (i : ℕ) → i < length xs → get_elem? (xs ++ ys) i ≡ get_elem? xs i
get_elem?-append_old [] ys i h = absurd (omega arith)
get_elem?-append_old (x ∷ xs) ys zero h = refl
get_elem?-append_old (x ∷ xs) ys (suc i) h = get_elem?-append_old xs ys i (omega arith)

get_elem?-append_new :
    {A : Type 0} (xs : List A) (x : A) → get_elem? (xs ++ (x ∷ [])) (length xs) ≡ some x
get_elem?-append_new [] x = refl
get_elem?-append_new (y ∷ xs) x = get_elem?-append_new xs x

get_elem?-beyond : {A : Type 0} (xs : List A) (i : ℕ) → length xs ≤ i → get_elem? xs i ≡ none
get_elem?-beyond [] i h = refl
get_elem?-beyond (x ∷ xs) zero h = absurd (omega arith)
get_elem?-beyond (x ∷ xs) (suc i) h = get_elem?-beyond xs i (omega arith)

get_elem?-append_one :
    {A : Type 0} (xs : List A) (x : A) (j : ℕ)
    → (if j == 0 || ltb (length (xs ++ (x ∷ []))) j
        then none
        else get_elem? (xs ++ (x ∷ [])) (j - 1))
      ≡ (if j == length xs + 1
          then some x
          else if j == 0 || ltb (length xs) j
          then none
          else get_elem? xs (j - 1))
get_elem?-append_one xs x zero = ground arith
get_elem?-append_one xs x (suc i) =
    let e : suc i - 1 ≡ i = omega arith in
    let last : i ≡ length xs → get_elem? (xs ++ (x ∷ [])) i ≡ some x =
      λ same. rw same (get_elem?-append_new xs x) in
    rw (e, length-append xs (x ∷ [])) (ground (arith, last, get_elem?-append_old xs (x ∷ []) i))

-- What `append` does to `find`: the new identity has the new symbol, the others what they had.
find-append :
    (kind : SymbolKind) (name : String) (indexed : Bool) (t : SymbolTable) (j : SymbolId)
    → find j (append kind name indexed t).0 ≡ (
        if j == length t.symbols + 1
        then some (record { id = length t.symbols + 1; kind = kind; name = name })
        else find j t)
unfolding find append
find-append kind name indexed t j =
    get_elem?-append_one t.symbols (record { id = length t.symbols + 1; kind = kind; name = name })
      j

-- A name that is not empty and not in use gets a new identity, under which its symbol is found, by
-- number and by name; every other number and name is found as before.
pub record Declared (kind : SymbolKind) (name : String) (t : SymbolTable)
    (result : SymbolTable × SymbolId) : Type 0 where
  pub fresh : find result.1 t ≡ none
  pub valid_id : result.1 ≢ invalid_symbol_id
  pub by_id : find result.1 result.0 ≡ some (record { id = result.1; kind = kind; name = name })
  pub others : (j : SymbolId) → j ≢ result.1 → find j result.0 ≡ find j t
  pub by_name : find_id name result.0 ≡ result.1
  pub other_names : (other : String) → name ≢ other → find_id other result.0 ≡ find_id other t

find_id-append :
    (kind : SymbolKind) (name other : String) (t : SymbolTable)
    → contains name t.by_name ≡ false
    → find_id other (append kind name true t).0
      ≡ (if str_eq name other then length t.symbols + 1 else find_id other t)
unfolding find_id append
find_id-append kind name other t new =
    ground (arith, lookup-emplace_new name other (length t.symbols + 1) t.by_name new)

-- `declare` of a name that is not empty and not in use.
pub declare-Declared :
    (kind : SymbolKind) (name : String) (t : SymbolTable)
    → name ≢ ""
    → contains name t.by_name ≡ false
    → Declared kind name t (declare kind name t)
unfolding declare
declare-Declared kind name t some_name new =
    let named : str_eq name "" ≡ false = ground (arith, str_eq_iff name "") in
    rw (named, new)
      (unfold append in
        record {
          fresh = unfold find in ground arith;
          valid_id = omega arith;
          by_id = find-append kind name true t (length t.symbols + 1) ∙ ground arith;
          others = λ j ne. find-append kind name true t j ∙ ground arith;
          by_name = find_id-append kind name name t new ∙ ground (arith, str_eq_iff name name);
          other_names = λ other ne.
              find_id-append kind name other t new ∙ ground (arith, str_eq_iff name other);
        })

-- `declare` refuses an empty name and a name in use, and then changes nothing; a name that is neither
-- it declares under a fresh identity, by which and by its spelling the symbol is then found, while all
-- other identities and names are found as before.
pub declare_cases :
    (kind : SymbolKind) (name : String) (t : SymbolTable)
    → (((name ≡ "") ⊎ (contains name t.by_name ≡ true))
        × (declare kind name t ≡ (t, invalid_symbol_id)))
      ⊎ ((name ≢ "")
          × (contains name t.by_name ≡ false)
          × Declared kind name t (declare kind name t))
declare_cases kind name t = elim (Bool-cases (str_eq name "")) [
  | inl empty ↦ inl (inl ((str_eq_iff name "").0 empty), unfold declare in rw empty)
  | inr named ↦ elim (Bool-cases (contains name t.by_name)) [
    | inl used ↦ inl (inr used, unfold declare in rw (named, used))
    | inr new ↦
        let some_name : name ≢ "" = λ e. ground (arith, str_eq_iff name "") in
        inr (some_name, new, declare-Declared kind name t some_name new)
  ]
]

resolve-declare_root :
    (name other : String) (id : SymbolId) (b : List (String × SymbolId))
    → (declare_in name id (root b)).1 ≡ true
    → resolve_in other (declare_in name id (root b)).0
      ≡ (if str_eq name other then id else resolve_in other (root b))
unfolding declare_in resolve_in
resolve-declare_root name other id b h = ground (arith, lookup-emplace_new name other id b)

resolve-declare_child :
    (name other : String) (id : SymbolId) (parent : Scope) (b : List (String × SymbolId))
    → (declare_in name id (child parent b)).1 ≡ true
    → resolve_in other (declare_in name id (child parent b)).0
      ≡ (if str_eq name other then id else resolve_in other (child parent b))
unfolding declare_in resolve_in
resolve-declare_child name other id parent b h = ground (arith, lookup-emplace_new name other id b)

-- A declaration that succeeds binds its name to its identity, hiding what the parents bind, and
-- leaves what every other name resolves to.
pub resolve-declare_in :
    (name other : String) (id : SymbolId) (s : Scope)
    → (declare_in name id s).1 ≡ true
    → resolve_in other (declare_in name id s).0
      ≡ (if str_eq name other then id else resolve_in other s)
resolve-declare_in name other id (root b) h = resolve-declare_root name other id b h
resolve-declare_in name other id (child parent b) h = resolve-declare_child name other id parent b h
