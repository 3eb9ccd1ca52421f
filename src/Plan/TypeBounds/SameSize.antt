-- ===== src/Plan/TypeBounds/SameSize.antt =====
-- plan/PlanBuilder.cpp: `fixedTypeSize` and `layoutBounds` of the same type.
use embx.Prelude.{
  ℕ, zero, suc, ◌≡◌, ◌↔◌, refl, sym, arith, String, ◌+s◌, str_eq, not, ◌||◌, Option, none, some,
  List, [], ◌∷◌, inl, inr, Bool-cases,
}
use embx.Prelude.Result.{
  Result, ok, err, ◌>>=◌, ◌>>◌, >>=-eq-ok, refuse_if, refuse_if-eq-ok, Result-cases,
}
use embx.Core.CLibrary.{CLibrary}
use embx.Core.Symbol.{SymbolId}
use embx.Core.Types.{CoreType}
use embx.Plan.Model.{Struct, Enum, Alias, Plan, LayoutBounds, is_exact, exact_max}
use embx.Plan.Visiting.{seen}
use embx.Plan.Sizes.{
  primitive_size, enter, is_empty, find_struct_by_type, find_alias_by_type, find_enum_by_type,
  fixed_ops, fixed_dims, fixed_alias, fixed_enum, fixed_named, fixed_base, fixed_step,
  fixed_type_size_from, fixed_type_size, out_of_fuel, layout_fuel,
}
use embx.Plan.Bounds.{bounds, sequence_from, start_at, extent}
use embx.Plan.TypeBounds.{
  alias_bounds, enum_bounds, struct_bounds, base_bounds, bounds_step, layout_bounds_from,
  layout_bounds, size_in_bytes, min_size_in_bytes, max_size_in_bytes, largest,
}
use embx.Plan.TypeBounds.Fixed.{exactly, sequence_from-exactly, dims_bounds-exactly}

-- A step that was entered is a step for another walk, too.
enter-exactly :
    {A B : Type 0} (t : CoreType) (visiting : List SymbolId) (message other : String)
    (step : List SymbolId → Result A) (next : List SymbolId → Result B) {a : A} {b : B}
    → enter t visiting message step ≡ ok a
    → (step (t.reference ∷ visiting) ≡ ok a → next (t.reference ∷ visiting) ≡ ok b)
    → enter t visiting other next ≡ ok b
enter-exactly t visiting message other step next {a} {b} h later =
    elim (Bool-cases (seen t.reference visiting)) [
      | inl e ↦ let h' : err (message +s t.name) ≡ ok a = rw e at h in cc
      | inr e ↦ let h' : step (t.reference ∷ visiting) ≡ ok a = rw e at h in rw e (later h')
    ]

module _ {F L : Type 0} (p : Plan F) (c : CLibrary F L) (rec : List SymbolId → CoreType → Result ℕ)
    (rec' : List SymbolId → CoreType → Result LayoutBounds)
    (agree : (visiting : List SymbolId) (t : CoreType) (n : ℕ)
      → rec visiting t ≡ ok n
      → rec' visiting t ≡ ok (exactly n))
    (visiting : List SymbolId) (t : CoreType) where
  alias_bounds-exactly :
      (o : Option Alias) {n : ℕ}
      → fixed_alias p c rec visiting t o ≡ ok n
      → alias_bounds p rec' visiting t o ≡ ok (exactly n)
  alias_bounds-exactly none {n} h = cc
  alias_bounds-exactly (some a) {n} h =
      enter-exactly t visiting "cyclic alias in plan: " "cyclic alias in layout bounds: "
        (λ inner. rec inner a.target) (λ inner. rec' inner a.target) h (agree _ a.target n)

  enum_bounds-exactly :
      (o : Option (Enum F)) {n : ℕ}
      → fixed_enum p c rec visiting t o ≡ ok n
      → enum_bounds p rec' visiting t o ≡ ok (exactly n)
  enum_bounds-exactly none {n} h = alias_bounds-exactly (find_alias_by_type p t) h
  enum_bounds-exactly (some e) {n} h = rw h refl

  struct_bounds-exactly :
      (o : Option (Struct F)) {n : ℕ}
      → fixed_named p c rec visiting t o ≡ ok n
      → struct_bounds p rec' visiting t o ≡ ok (exactly n)
  unfolding fixed_named
  struct_bounds-exactly none {n} h = enum_bounds-exactly (find_enum_by_type p t) h
  struct_bounds-exactly (some s) {n} h =
      enter-exactly t visiting "cyclic struct reference in plan: "
        "cyclic struct reference in layout bounds: " (λ inner. fixed_ops (rec inner) 0 s.members)
        (λ inner. sequence_from (rec' inner) s.members (start_at 0) >>= λ seq. ok (extent seq)) h
        (λ sum.
          rw
            (sequence_from-exactly (rec (t.reference ∷ visiting)) (rec' (t.reference ∷ visiting))
              (agree (t.reference ∷ visiting)) s.members 0 sum)
            refl)

  base_bounds-exactly :
      (o : Option ℕ) {n : ℕ}
      → fixed_base p c rec visiting t o ≡ ok n
      → base_bounds p rec' visiting t o ≡ ok (exactly n)
  unfolding fixed_base base_bounds
  base_bounds-exactly (some m) {n} h = let e : m ≡ n = cc in rw e refl
  base_bounds-exactly none {n} h =
      elim (Bool-cases (str_eq t.name "bytes" || str_eq t.name "string")) [
        | inl e ↦ let h' : ok 1 ≡ ok n = rw e at h in let one : 1 ≡ n = cc in rw (e, sym one) refl
        | inr e ↦ rw e (struct_bounds-exactly (find_struct_by_type p t) (rw e at h))
      ]

  bounds_step-exactly :
      (n : ℕ)
      → fixed_step p c rec visiting t ≡ ok n
      → bounds_step p c rec' visiting t ≡ ok (exactly n)
  unfolding fixed_step bounds_step
  bounds_step-exactly n h =
      let (plain, h') =
        refuse_if-eq-ok (not (is_empty t.terminator)) ""
          (fixed_base p c rec visiting t (primitive_size t.name) >>= λ base.
            fixed_dims c base t.dimensions)
          h in
      let (base, one, all) =
        >>=-eq-ok (fixed_base p c rec visiting t (primitive_size t.name))
          (λ base. fixed_dims c base t.dimensions) h' in
      rw (plain, base_bounds-exactly (primitive_size t.name) one)
        (dims_bounds-exactly c t.dimensions base all)

layout_bounds_from-exactly :
    {F L : Type 0} (p : Plan F) (c : CLibrary F L) (fuel : ℕ) (visiting : List SymbolId)
    (t : CoreType) (n : ℕ)
    → fixed_type_size_from p c (err out_of_fuel) fuel visiting t ≡ ok n
    → layout_bounds_from p c (err out_of_fuel) fuel visiting t ≡ ok (exactly n)
unfolding fixed_type_size_from layout_bounds_from
layout_bounds_from-exactly p c zero visiting t n h = cc
layout_bounds_from-exactly p c (suc fuel) visiting t n h =
    bounds_step-exactly p c (fixed_type_size_from p c (err out_of_fuel) fuel)
      (layout_bounds_from p c (err out_of_fuel) fuel) (layout_bounds_from-exactly p c fuel) visiting
      t n h

-- Where `fixedTypeSize` finds a size for a type, `layoutBounds` of it succeeds, and its smallest and
-- its largest size are that size.
pub layout_bounds-fixed_type_size :
    {F L : Type 0} (p : Plan F) (c : CLibrary F L) (t : CoreType) {n : ℕ}
    → fixed_type_size p c t ≡ ok n
    → layout_bounds p c t ≡ ok (bounds n (some n))
unfolding fixed_type_size layout_bounds
layout_bounds-fixed_type_size p c t {n} h = layout_bounds_from-exactly p c (layout_fuel p) [] t n h

sizes_iff :
    (m : ℕ) (o : Option ℕ) (n : ℕ)
    → ((refuse_if (not (exact_max m o)) "size_in_bytes is not statically exact" >> ok m) ≡ ok n)
      ↔ ((ok m ≡ ok n) × (largest o ≡ ok n))
sizes_iff m none n = ground arith
sizes_iff m (some k) n = ground arith

-- `sizeInBytes` of a type is n exactly where `minSizeInBytes` and `maxSizeInBytes` of it both are n.
pub size_in_bytes-min-max :
    {F L : Type 0} (p : Plan F) (c : CLibrary F L) (t : CoreType) (n : ℕ)
    → (size_in_bytes p c t ≡ ok n)
      ↔ ((min_size_in_bytes p c t ≡ ok n) × (max_size_in_bytes p c t ≡ ok n))
unfolding size_in_bytes min_size_in_bytes max_size_in_bytes is_exact
size_in_bytes-min-max p c t n = elim (Result-cases (layout_bounds p c t)) [
  | inr (m, e) ↦ rw e (ground arith)
  | inl (b, e) ↦ rw e (sizes_iff b.min_size b.max_size n)
]
