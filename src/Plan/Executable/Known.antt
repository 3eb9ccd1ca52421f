-- ===== src/Plan/Executable/Known.antt =====
-- plan/PlanBuilder.cpp: what an accepted plan promises about its indexes, types and bits.
use embx.Prelude.{
  ℕ, ◌+◌, ◌-◌, ◌*◌, ◌/◌, ◌<◌, ◌≤◌, ◌≡◌, refl, arith, String, ◌+s◌, true, false, not, ◌&&◌, ◌||◌,
  Option, none, some, List, [], ◌∷◌, ltb, ◌==◌, ◌⊎◌, inl, inr, Bool-cases, Option-cases, get_elem?,
}
use embx.Prelude.Map.{nat_key, lookup, contains}
use embx.Prelude.Result.{ok, ◌>>=◌, ◌>>◌, refuse_if, >>=-eq-ok, refuse_if-eq-ok}
use embx.Core.Symbol.{SymbolId, SymbolKind, Symbol, valid, find}
use embx.Core.Types.{TypeKind, CoreType}
use embx.Plan.Model.{BitsField, Struct, Enum, Alias, Plan}
use embx.Plan.Sizes.{indexed, find_struct_by_type, find_alias_by_type, find_enum_by_type}
use embx.Plan.Identities.{
  Check, is_kind, entry_matches, validate_index, symbol_check, present, named_symbol,
  named_identity, validate_executable_type, bits_widths, validate_bits,
}
use embx.Plan.Executable.{validate_executable_plan}

entry-found :
    {A : Type 0} (symbol_of : A → SymbolId) (id : SymbolId) (o : Option A)
    → not (entry_matches symbol_of id o) ≡ false
    → (a : A) × (o ≡ some a) × (symbol_of a ≡ id)
entry-found symbol_of id none h = cc
entry-found symbol_of id (some a) h = (a, refl, ground arith)

-- The place of a symbol in an accepted index holds the entry of that symbol.
validate_index-lookup :
    {A : Type 0} (symbol_of : A → SymbolId) (l : List A) (message : String)
    (m : List (SymbolId × ℕ)) (id : SymbolId) {i : ℕ}
    → validate_index symbol_of l message m ≡ ok tt
    → lookup id m ≡ some i
    → (a : A) × (get_elem? l i ≡ some a) × (symbol_of a ≡ id)
unfolding validate_index lookup
validate_index-lookup symbol_of l message [] id {i} h found = cc
validate_index-lookup symbol_of l message ((k, j) ∷ m) id {i} h found =
    let (matches, h') =
      refuse_if-eq-ok (not (entry_matches symbol_of k (get_elem? l j))) message
        (validate_index symbol_of l message m) h in
    elim (Bool-cases (k == id)) [
      | inr other ↦ validate_index-lookup symbol_of l message m id h' (rw other at found)
      | inl here ↦
          let found' : some j ≡ some i = rw here at found in
          let place : j ≡ i = cc in
          let key : k ≡ id = ground arith in
          let entry = entry-found symbol_of k (get_elem? l j) matches in rw (place, key) at entry
    ]

contains-found :
    (id : SymbolId) (m : List (SymbolId × ℕ))
    → contains id m ≡ true
    → (i : ℕ) × (lookup id m ≡ some i)
unfolding contains lookup
contains-found id [] h = cc
contains-found id ((k, j) ∷ m) h = elim (Bool-cases (k == id)) [
  | inl here ↦ (j, rw here refl)
  | inr other ↦ let (i, e) = contains-found id m (rw other at h) in (i, rw other e)
]

unfoldable pub width_sum : List BitsField → ℕ
width_sum [] = 0
width_sum (f ∷ fs) = f.bits + width_sum fs

unfoldable pub NoEmpty : List BitsField → Type 0
NoEmpty [] = Unit {0}
NoEmpty (f ∷ fs) = (1 ≤ f.bits) × NoEmpty fs

bits_widths-sum :
    {F : Type 0} (p : Plan F) (fields : List BitsField) (total : ℕ) (owner : String) {n : ℕ}
    → bits_widths p fields total owner ≡ ok n
    → (n ≡ total + width_sum fields) × NoEmpty fields
unfolding bits_widths width_sum NoEmpty
bits_widths-sum p [] total owner {n} h = let e : total ≡ n = cc in (omega arith, tt)
bits_widths-sum p (f ∷ fs) total owner {n} h =
    let (u, one, h1) =
      >>=-eq-ok
        (symbol_check p SymbolKind.field f.symbol
          (owner +s ": bits field has invalid SymbolId: " +s f.name)
          (owner +s ": bits field SymbolId is not executable: " +s f.name))
        _ h in
    let (width, h2) =
      refuse_if-eq-ok (f.bits == 0 || ltb 64 f.bits || ltb (64 - f.bits) total)
        (owner +s ": bits field width is invalid: " +s f.name)
        (validate_executable_type p f.type (owner +s "." +s f.name)
          >> bits_widths p fs (total + f.bits) owner)
        h1 in
    let (v, two, h3) =
      >>=-eq-ok (validate_executable_type p f.type (owner +s "." +s f.name))
        (λ (_ : Unit {0}). bits_widths p fs (total + f.bits) owner) h2 in
    let (sum, others) = bits_widths-sum p fs (total + f.bits) owner h3 in
    (omega arith, (ground arith, others))

refused-ok : (r : Check) → r ≡ ok (tt {0}) → (r >> ok (tt {0})) ≡ ok (tt {0})
refused-ok r h = rw h refl

-- An accepted group of bits has 1 to 64 bits, which are those of its fields, none of them empty, in
-- the least number of bytes that holds them.
pub validate_bits-widths :
    {F : Type 0} (p : Plan F) (fields : List BitsField) (total_bits storage : ℕ) (owner : String)
    → validate_bits p fields total_bits storage owner ≡ ok tt
    → (width_sum fields ≡ total_bits)
      × (1 ≤ total_bits)
      × (total_bits ≤ 64)
      × (total_bits ≤ 8 * storage)
      × (8 * storage < total_bits + 8)
      × NoEmpty fields
unfolding validate_bits
validate_bits-widths p fields total_bits storage owner h =
    let (meta, h1) =
      refuse_if-eq-ok
        (ltb total_bits 1 || ltb 64 total_bits || not (storage == (total_bits + 7) / 8))
        (owner +s ": bits operation has inconsistent width metadata")
        (bits_widths p fields 0 owner >>= λ total.
          refuse_if (not (total == total_bits))
            (owner +s ": bits width does not match field widths"))
        h in
    let (total, sum, h2) = >>=-eq-ok (bits_widths p fields 0 owner) _ h1 in
    let (parts, filled) = bits_widths-sum p fields 0 owner sum in
    let (same, done) =
      refuse_if-eq-ok (not (total == total_bits))
        (owner +s ": bits width does not match field widths") (ok tt) (refused-ok _ h2) in
    (ground arith, ground arith, ground arith, ground arith, ground arith, filled)

-- The entry of a symbol in an index that was checked.
indexed-known :
    {A : Type 0} (symbol_of : A → SymbolId) (l : List A) (message : String)
    (m : List (SymbolId × ℕ)) (t : CoreType)
    → validate_index symbol_of l message m ≡ ok tt
    → valid t.reference ≡ true
    → contains t.reference m ≡ true
    → (a : A) × (indexed m l t ≡ some a) × (symbol_of a ≡ t.reference)
indexed-known symbol_of l message m t h good there =
    let (i, e) = contains-found t.reference m there in
    let (a, e', same) = validate_index-lookup symbol_of l message m t.reference h e in
    (a, rw (good, e) e', same)

module _ {F : Type 0} (p : Plan F) where
  abbrev struct_symbol : Struct F → SymbolId
  struct_symbol s = s.symbol

  abbrev alias_symbol : Alias → SymbolId
  alias_symbol a = a.symbol

  abbrev enum_symbol : Enum F → SymbolId
  enum_symbol e = e.symbol

  -- The plan has a struct, an alias or an enum for the type, and its symbol is the type's.
  abbrev pub Named : CoreType → Type 0
  Named t =
      ((s : Struct F) × (find_struct_by_type p t ≡ some s) × (s.symbol ≡ t.reference))
      ⊎ ((a : Alias) × (find_alias_by_type p t ≡ some a) × (a.symbol ≡ t.reference))
      ⊎ ((e : Enum F) × (find_enum_by_type p t ≡ some e) × (e.symbol ≡ t.reference))

  present-contains :
      (wanted kind : SymbolKind) (index : List (SymbolId × ℕ)) (id : SymbolId) (message : String)
      → present p wanted kind index id message ≡ ok tt
      → is_kind wanted kind ≡ true
      → contains id index ≡ true
  present-contains wanted kind index id message h same =
      let (c, e) =
        refuse_if-eq-ok (is_kind wanted kind && not (contains id index)) message (ok (tt {0}))
          (refused-ok (present p wanted kind index id message) h) in
      ground arith

  abbrev IndexesChecked : Type 0
  IndexesChecked =
      (validate_index struct_symbol p.structs "struct index does not match SymbolId"
          p.struct_index_by_symbol
        ≡ ok tt)
      × (validate_index alias_symbol p.aliases "alias index does not match SymbolId"
            p.alias_index_by_symbol
          ≡ ok tt)
      × (validate_index enum_symbol p.enums "enum index does not match SymbolId"
            p.enum_index_by_symbol
          ≡ ok tt)

  plan-indexes : validate_executable_plan p ≡ ok tt → IndexesChecked
  unfolding validate_executable_plan
  plan-indexes h =
      let (u, structs, h1) =
        >>=-eq-ok
          (validate_index struct_symbol p.structs "struct index does not match SymbolId"
            p.struct_index_by_symbol)
          _ h in
      let (v, aliases, h2) =
        >>=-eq-ok
          (validate_index alias_symbol p.aliases "alias index does not match SymbolId"
            p.alias_index_by_symbol)
          _ h1 in
      let (w, enums, h3) =
        >>=-eq-ok
          (validate_index enum_symbol p.enums "enum index does not match SymbolId"
            p.enum_index_by_symbol)
          _ h2 in
      (structs, aliases, enums)

  named-known :
      (t : CoreType) (s : Symbol) (owner : String)
      → IndexesChecked
      → valid t.reference ≡ true
      → named_symbol p (some s) t.reference owner ≡ ok tt
      → Named t
  unfolding find_struct_by_type find_alias_by_type find_enum_by_type
  named-known t s owner (structs, aliases, enums) good h =
      let (a_type, h1) =
        refuse_if-eq-ok
          (not (is_kind SymbolKind.struct s.kind)
            && not (is_kind SymbolKind.type_alias s.kind)
            && not (is_kind SymbolKind.enum s.kind))
          (owner +s ": named type SymbolId has non-type kind") _ h in
      let (u, in_structs, h2) =
        >>=-eq-ok
          (present p SymbolKind.struct s.kind p.struct_index_by_symbol t.reference
            (owner +s ": struct type is absent from executable plan"))
          _ h1 in
      let (v, in_aliases, in_enums) =
        >>=-eq-ok
          (present p SymbolKind.type_alias s.kind p.alias_index_by_symbol t.reference
            (owner +s ": alias type is absent from executable plan"))
          _ h2 in
      elim (Bool-cases (is_kind SymbolKind.struct s.kind)) [
        | inl k ↦ inl (
            indexed-known struct_symbol p.structs _ p.struct_index_by_symbol t structs good
              (present-contains SymbolKind.struct s.kind _ t.reference _ in_structs k))
        | inr n ↦ elim (Bool-cases (is_kind SymbolKind.type_alias s.kind)) [
          | inl k ↦ inr (
              inl (
                indexed-known alias_symbol p.aliases _ p.alias_index_by_symbol t aliases good
                  (present-contains SymbolKind.type_alias s.kind _ t.reference _ in_aliases k)))
          | inr m ↦ inr (
              inr (
                indexed-known enum_symbol p.enums _ p.enum_index_by_symbol t enums good (
                  present-contains SymbolKind.enum s.kind p.enum_index_by_symbol t.reference _
                    in_enums (ground arith))))
        ]
      ]

-- In an accepted plan, an accepted type that names a user-defined type has a struct, an alias or an
-- enum of the plan for it, and the symbol of that is the one the type refers to.
pub executable_type-Named :
    {F : Type 0} (p : Plan F) (t : CoreType) (owner : String)
    → validate_executable_plan p ≡ ok tt
    → validate_executable_type p t owner ≡ ok tt
    → t.kind ≡ TypeKind.named
    → Named p t
unfolding validate_executable_type
executable_type-Named p t owner plan h named =
    let (u, identity, dims) = >>=-eq-ok (named_identity p t.kind t.reference owner) _ h in
    let id : named_identity p TypeKind.named t.reference owner ≡ ok tt = rw named at identity in
    let (good, h1) =
      refuse_if-eq-ok (not (valid t.reference)) (owner +s ": named type has no SymbolId")
        (named_symbol p (find t.reference p.symbol_table) t.reference owner) id in
    elim (Option-cases (find t.reference p.symbol_table)) [
      | inl e ↦ let h2 : named_symbol p none t.reference owner ≡ ok tt = rw e at h1 in cc
      | inr (s, e) ↦ named-known p t s owner (plan-indexes p plan) (ground arith) (rw e at h1)
    ]
