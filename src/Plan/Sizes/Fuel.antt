-- ===== src/Plan/Sizes/Fuel.antt =====
-- plan/PlanBuilder.cpp: the fuel of the sizes. The measure of a walk is the number of the named types
-- that it does not visit; each step into a type lowers it.
use mathlib.Core.Path.{fun_ext}
use embx.Prelude.{
  ℕ, zero, suc, ◌+◌, ◌<◌, ◌≡◌, refl, ap, arith, String, false, Option, none, some, List, [], ◌∷◌,
  inl, inr, Bool-cases, Option-cases,
}
use embx.Prelude.Map.{nat_key, lookup}
use embx.Prelude.Result.{Result, err}
use embx.Core.CLibrary.{CLibrary}
use embx.Core.Symbol.{SymbolId}
use embx.Core.Types.{CoreType}
use embx.Plan.Model.{Struct, Alias, Plan}
use embx.Plan.Visiting.{seen, unvisited, unvisited-le-length, unvisited-cons, unvisited-lt}
use embx.Plan.Sizes.{
  indexed, find_struct_by_type, find_alias_by_type, find_enum_by_type, enter, fixed_ops,
  fixed_named, fixed_alias, fixed_base, fixed_step, fixed_type_size_from, fixed_type_size,
  layout_fuel, primitive_size, out_of_fuel, integer_of, integer_step, resolve_integer_primitive,
}

unfoldable pub remaining : {F : Type 0} → Plan F → List SymbolId → ℕ
remaining p visiting =
    unvisited visiting p.struct_index_by_symbol + unvisited visiting p.alias_index_by_symbol

pub remaining-lt-layout_fuel :
    {F : Type 0} (p : Plan F) (visiting : List SymbolId) → remaining p visiting < layout_fuel p
unfolding remaining layout_fuel
remaining-lt-layout_fuel p visiting = omega (
  arith,
  unvisited-le-length visiting p.struct_index_by_symbol,
  unvisited-le-length visiting p.alias_index_by_symbol,
)

indexed-lookup {ℓ} :
    {A : Type ℓ} (index : List (SymbolId × ℕ)) (l : List A) (t : CoreType) {a : A}
    → indexed index l t ≡ some a
    → (i : ℕ) × (lookup t.reference index ≡ some i)
indexed-lookup index l t h = elim (Option-cases (lookup t.reference index)) [
  | inl e ↦ ground (arith, e)
  | inr (i, e) ↦ (i, e)
]

-- A walk that enters a struct or an alias has fewer types left to visit.
pub remaining-struct :
    {F : Type 0} (p : Plan F) (visiting : List SymbolId) (t : CoreType) {s : Struct F}
    → seen t.reference visiting ≡ false
    → find_struct_by_type p t ≡ some s
    → remaining p (t.reference ∷ visiting) < remaining p visiting
unfolding remaining find_struct_by_type
remaining-struct p visiting t new h =
    let (i, e) = indexed-lookup p.struct_index_by_symbol p.structs t h in
    omega (
      arith,
      unvisited-lt t.reference visiting p.struct_index_by_symbol new e,
      unvisited-cons t.reference visiting p.alias_index_by_symbol,
    )

pub remaining-alias :
    {F : Type 0} (p : Plan F) (visiting : List SymbolId) (t : CoreType) {a : Alias}
    → seen t.reference visiting ≡ false
    → find_alias_by_type p t ≡ some a
    → remaining p (t.reference ∷ visiting) < remaining p visiting
unfolding remaining find_alias_by_type
remaining-alias p visiting t new h =
    let (i, e) = indexed-lookup p.alias_index_by_symbol p.aliases t h in
    omega (
      arith,
      unvisited-lt t.reference visiting p.alias_index_by_symbol new e,
      unvisited-cons t.reference visiting p.struct_index_by_symbol,
    )

-- A step that is entered only for a type that is new.
pub enter-agree {ℓ} :
    {A : Type ℓ} (t : CoreType) (visiting : List SymbolId) (message : String)
    (step step' : List SymbolId → Result A)
    → (seen t.reference visiting ≡ false
        → step (t.reference ∷ visiting) ≡ step' (t.reference ∷ visiting))
    → enter t visiting message step ≡ enter t visiting message step'
enter-agree t visiting message step step' same = elim (Bool-cases (seen t.reference visiting)) [
  | inl old ↦ rw old refl
  | inr new ↦ rw new (same new)
]

module _ {F L : Type 0} (p : Plan F) (c : CLibrary F L)
    (rec rec' : List SymbolId → CoreType → Result ℕ) (visiting : List SymbolId) (t : CoreType)
    (same : remaining p (t.reference ∷ visiting) < remaining p visiting
      → (u : CoreType) → rec (t.reference ∷ visiting) u ≡ rec' (t.reference ∷ visiting) u) where
  fixed_alias-agree :
      (o : Option Alias)
      → find_alias_by_type p t ≡ o
      → fixed_alias p c rec visiting t o ≡ fixed_alias p c rec' visiting t o
  fixed_alias-agree none h = refl
  fixed_alias-agree (some a) h =
      enter-agree t visiting "cyclic alias in plan: " (λ inner. rec inner a.target)
        (λ inner. rec' inner a.target) (λ new. same (remaining-alias p visiting t new h) a.target)

  fixed_named-agree :
      (o : Option (Struct F))
      → find_struct_by_type p t ≡ o
      → fixed_named p c rec visiting t o ≡ fixed_named p c rec' visiting t o
  unfolding fixed_named
  fixed_named-agree (some s) h =
      enter-agree t visiting "cyclic struct reference in plan: "
        (λ inner. fixed_ops (rec inner) 0 s.members) (λ inner. fixed_ops (rec' inner) 0 s.members)
        (λ new.
          ap (λ r. fixed_ops r 0 s.members) (fun_ext (same (remaining-struct p visiting t new h))))
  fixed_named-agree none h = elim (Option-cases (find_enum_by_type p t)) [
    | inl e ↦ rw e (fixed_alias-agree (find_alias_by_type p t) refl)
    | inr (en, e) ↦ rw e refl
  ]

  fixed_base-agree :
      (o : Option ℕ) → fixed_base p c rec visiting t o ≡ fixed_base p c rec' visiting t o
  unfolding fixed_base
  fixed_base-agree (some n) = refl
  fixed_base-agree none = rw (fixed_named-agree (find_struct_by_type p t) refl) refl

  fixed_step-agree : fixed_step p c rec visiting t ≡ fixed_step p c rec' visiting t
  unfolding fixed_step
  fixed_step-agree = rw (fixed_base-agree (primitive_size t.name)) refl

-- With more fuel than there are types left to visit, neither the fuel nor its end matters.
pub fixed_type_size_from-agree :
    {F L : Type 0} (p : Plan F) (c : CLibrary F L) (stop stop' : Result ℕ) (fuel fuel' : ℕ)
    (visiting : List SymbolId) (t : CoreType)
    → remaining p visiting < fuel
    → remaining p visiting < fuel'
    → fixed_type_size_from p c stop fuel visiting t
      ≡ fixed_type_size_from p c stop' fuel' visiting t
unfolding fixed_type_size_from
fixed_type_size_from-agree p c stop stop' zero fuel' visiting t a b = ground arith
fixed_type_size_from-agree p c stop stop' (suc fuel) zero visiting t a b = ground arith
fixed_type_size_from-agree p c stop stop' (suc fuel) (suc fuel') visiting t a b =
    fixed_step-agree p c (fixed_type_size_from p c stop fuel) (fixed_type_size_from p c stop' fuel')
      visiting t
      (λ less u.
        fixed_type_size_from-agree p c stop stop' fuel fuel' (t.reference ∷ visiting) u
          (omega arith) (omega arith))

-- `fixedTypeSize` ends on every plan, one with cyclic types included: whatever stands for the end of
-- the fuel, and whatever fuel is added, the result is the same.
pub fixed_type_size-ends :
    {F L : Type 0} (p : Plan F) (c : CLibrary F L) (stop : Result ℕ) (extra : ℕ) (t : CoreType)
    → fixed_type_size_from p c stop (layout_fuel p + extra) [] t ≡ fixed_type_size p c t
unfolding fixed_type_size
fixed_type_size-ends p c stop extra t =
    let less : remaining p [] < layout_fuel p = remaining-lt-layout_fuel p [] in
    fixed_type_size_from-agree p c stop (err out_of_fuel) (layout_fuel p + extra) (layout_fuel p) []
      t (omega arith) less

integer_of-agree :
    {F : Type 0} (p : Plan F) (rec rec' : List SymbolId → CoreType → Result String)
    (visiting : List SymbolId) (t : CoreType)
    → (remaining p (t.reference ∷ visiting) < remaining p visiting
        → (u : CoreType) → rec (t.reference ∷ visiting) u ≡ rec' (t.reference ∷ visiting) u)
    → (o : Option Alias) → find_alias_by_type p t ≡ o
    → integer_of p rec visiting t o ≡ integer_of p rec' visiting t o
integer_of-agree p rec rec' visiting t same none h = refl
integer_of-agree p rec rec' visiting t same (some a) h =
    enter-agree t visiting "cyclic alias in enum underlying type: " (λ inner. rec inner a.target)
      (λ inner. rec' inner a.target) (λ new. same (remaining-alias p visiting t new h) a.target)

resolve_integer_primitive-agree :
    {F : Type 0} (p : Plan F) (stop stop' : Result String) (fuel fuel' : ℕ)
    (visiting : List SymbolId) (t : CoreType)
    → remaining p visiting < fuel
    → remaining p visiting < fuel'
    → resolve_integer_primitive p stop fuel visiting t
      ≡ resolve_integer_primitive p stop' fuel' visiting t
unfolding resolve_integer_primitive integer_step
resolve_integer_primitive-agree p stop stop' zero fuel' visiting t a b = ground arith
resolve_integer_primitive-agree p stop stop' (suc fuel) zero visiting t a b = ground arith
resolve_integer_primitive-agree p stop stop' (suc fuel) (suc fuel') visiting t a b =
    let deeper =
      integer_of-agree p (resolve_integer_primitive p stop fuel)
        (resolve_integer_primitive p stop' fuel') visiting t
        (λ less u.
          resolve_integer_primitive-agree p stop stop' fuel fuel' (t.reference ∷ visiting) u
            (omega arith) (omega arith))
        (find_alias_by_type p t) refl in
    rw deeper refl

-- `resolveIntegerPrimitive`, called as for an enum's size, ends on every plan, one with cyclic
-- aliases included: whatever stands for the end of the fuel, and whatever fuel is added, the result
-- is the same.
pub resolve_integer_primitive-ends :
    {F : Type 0} (p : Plan F) (stop stop' : Result String) (extra : ℕ) (t : CoreType)
    → resolve_integer_primitive p stop (layout_fuel p + extra) [] t
      ≡ resolve_integer_primitive p stop' (layout_fuel p) [] t
resolve_integer_primitive-ends p stop stop' extra t =
    let less : remaining p [] < layout_fuel p = remaining-lt-layout_fuel p [] in
    resolve_integer_primitive-agree p stop stop' (layout_fuel p + extra) (layout_fuel p) [] t
      (omega arith) less
