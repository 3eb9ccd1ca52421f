-- ===== src/Plan/ArrayDescriptor/Sized.antt =====
-- plan/ArrayDescriptor.cpp: `makeArrayDescriptor` with the `fixedTypeSize` of plan/PlanBuilder.cpp,
-- which it calls with the type of an element.
use native.Mathlib.Nat.{mul_assoc}
use embx.Prelude.{
  ℕ, zero, suc, ◌*◌, ◌/◌, ◌≡◌, refl, sym, ap, ◌∙◌, arith, str_eq, not, ◌&&◌, ◌||◌, ◌==◌, ltb,
  Option, none, some, List, [], ◌∷◌, if◌then◌else◌,
}
use embx.Prelude.Result.{Result, ok, err, ◌>>=◌, ◌>>◌, >>=-eq-ok, refuse_if, refuse_if-eq-ok}
use embx.Core.CLibrary.{CLibrary}
use embx.Core.Symbol.{SymbolId}
use embx.Core.Types.{Dimension, CoreType, is_remaining}
use embx.Runtime.Array.{ArrayDescriptor}
use embx.Runtime.Array.Place.{product}
use embx.Runtime.Host.{size_max}
use embx.Runtime.Evaluator.{evaluate_size_symbol}
use embx.Plan.Model.{Struct, Enum, Alias, Plan}
use embx.Plan.Sizes.{
  primitive_size, silent, is_empty, is_fixed, is_null, fixed_alias, find_struct_by_type,
  find_alias_by_type, find_enum_by_type, fixed_dims, fixed_enum, fixed_named, fixed_base,
  fixed_step, fixed_type_size_from, fixed_type_size, layout_fuel, out_of_fuel,
}
use embx.Plan.ArrayDescriptor.{
  is_null as is_missing, dimension_value, dimension_values, make_array_descriptor,
}
use embx.Plan.ArrayDescriptor.Valid.{make_array_descriptor-fields, make_array_descriptor-facts}

abbrev element : CoreType → CoreType
element t = record t { dimensions = [] }

silent-eq-ok : (r : Result ℕ) {n : ℕ} → silent r ≡ ok n → r ≡ ok n
silent-eq-ok (ok m) h = h
silent-eq-ok (err e) h = cc

-- A dimension that has a value is an expression that has it.
dimension_value-expression :
    {F L : Type 0} (c : CLibrary F L) (f : CoreType → Result ℕ) (d : Dimension) {n : ℕ}
    → dimension_value c f [] d ≡ ok n
    → evaluate_size_symbol c [] d.expression ≡ ok n
unfolding dimension_value
dimension_value-expression c f d {n} h =
    let (checked, accepted, value) =
      >>=-eq-ok
        (refuse_if (is_remaining d.kind)
            "remaining array dimension requires a terminated-sequence runtime boundary"
          >> refuse_if (is_missing d.expression) "array dimension has no expression")
        (λ (_ : Unit {0}). evaluate_size_symbol c [] d.expression) h in
    value

-- A dimension that is fixed multiplies the size by the value of its expression.
fixed_dims-cons :
    {F L : Type 0} (c : CLibrary F L) (base : ℕ) (d : Dimension) (ds : List Dimension) {m n : ℕ}
    → evaluate_size_symbol c [] d.expression ≡ ok m
    → fixed_dims c base (d ∷ ds) ≡ ok n
    → fixed_dims c (base * m) ds ≡ ok n
unfolding fixed_dims
fixed_dims-cons c base d ds {m} {n} value h =
    let later : Result ℕ =
      refuse_if (not (base == 0) && ltb (size_max / base) m) "fixed type size overflow"
      >> fixed_dims c (base * m) ds in
    let h' : (refuse_if (not (is_fixed d.kind)) ""
          >> (refuse_if (is_null d.expression) "" >> later))
        ≡ ok n =
      rw value at h in
    let (u, h1) =
      refuse_if-eq-ok (not (is_fixed d.kind)) "" (refuse_if (is_null d.expression) "" >> later)
        h' in
    let (v, h2) = refuse_if-eq-ok (is_null d.expression) "" later h1 in
    let (w, h3) =
      refuse_if-eq-ok (not (base == 0) && ltb (size_max / base) m) "fixed type size overflow"
        (fixed_dims c (base * m) ds) h2 in
    h3

-- The dimensions multiply the size by their extents.
fixed_dims-product :
    {F L : Type 0} (c : CLibrary F L) (f : CoreType → Result ℕ) (ds : List Dimension) (base : ℕ)
    {extents : List ℕ} {n : ℕ}
    → dimension_values c f [] ds ≡ ok extents
    → fixed_dims c base ds ≡ ok n
    → n ≡ base * product extents
unfolding dimension_values
fixed_dims-product c f [] base {extents} {n} hv hd =
    let none_left : [] ≡ extents = cc in
    let same : base ≡ n = (unfold fixed_dims in cc) in rw (sym none_left, sym same) (omega arith)
fixed_dims-product c f (d ∷ ds) base {extents} {n} hv hd =
    let (extent, first, rest) = >>=-eq-ok (dimension_value c f [] d) _ hv in
    let (others, values, done) = >>=-eq-ok (dimension_values c f [] ds) _ rest in
    let all : extent ∷ others ≡ extents = cc in
    let hd' = fixed_dims-cons c base d ds (dimension_value-expression c f d first) hd in
    fixed_dims-product c f ds (base * extent) values hd'
    ∙ mul_assoc base extent (product others)
    ∙ ap (λ l. base * product l) all

module _ {F L : Type 0} (p : Plan F) (c : CLibrary F L) (rec : List SymbolId → CoreType → Result ℕ)
    (visiting : List SymbolId) (t : CoreType) where
  fixed_alias-element :
      (o : Option Alias)
      → fixed_alias p c rec visiting (element t) o ≡ fixed_alias p c rec visiting t o
  fixed_alias-element none = refl
  fixed_alias-element (some a) = refl

  fixed_enum-element :
      (o : Option (Enum F))
      → fixed_enum p c rec visiting (element t) o ≡ fixed_enum p c rec visiting t o
  unfolding find_alias_by_type
  fixed_enum-element (some e) = refl
  fixed_enum-element none = fixed_alias-element (find_alias_by_type p t)

  fixed_named-element :
      (o : Option (Struct F))
      → fixed_named p c rec visiting (element t) o ≡ fixed_named p c rec visiting t o
  unfolding fixed_named find_enum_by_type
  fixed_named-element (some s) = refl
  fixed_named-element none = fixed_enum-element (find_enum_by_type p t)

  -- The dimensions of a type play no part in the size of its element.
  fixed_base-element :
      (o : Option ℕ) → fixed_base p c rec visiting (element t) o ≡ fixed_base p c rec visiting t o
  unfolding fixed_base find_struct_by_type
  fixed_base-element (some n) = refl
  fixed_base-element none =
      ap (λ r. if str_eq t.name "bytes" || str_eq t.name "string" then ok 1 else r)
        (fixed_named-element (find_struct_by_type p t))

  -- The size of a type is that of its element, times the extents.
  fixed_step-product :
      (f : CoreType → Result ℕ) {size n : ℕ} {extents : List ℕ}
      → fixed_step p c rec visiting (element t) ≡ ok size
      → dimension_values c f [] t.dimensions ≡ ok extents
      → fixed_step p c rec visiting t ≡ ok n
      → n ≡ size * product extents
  unfolding fixed_step
  fixed_step-product f {size} {n} {extents} hs hv h =
      let (u, hs1) =
        refuse_if-eq-ok (not (is_empty t.terminator)) ""
          (fixed_base p c rec visiting (element t) (primitive_size t.name) >>= λ base.
            fixed_dims c base [])
          hs in
      let (one, hb, hs2) =
        >>=-eq-ok (fixed_base p c rec visiting (element t) (primitive_size t.name))
          (λ base. fixed_dims c base []) hs1 in
      let (v, h1) =
        refuse_if-eq-ok (not (is_empty t.terminator)) ""
          (fixed_base p c rec visiting t (primitive_size t.name) >>= λ base.
            fixed_dims c base t.dimensions)
          h in
      let (base, hb', h2) =
        >>=-eq-ok (fixed_base p c rec visiting t (primitive_size t.name))
          (λ base. fixed_dims c base t.dimensions) h1 in
      let same : one ≡ base =
        let e = sym hb ∙ fixed_base-element (primitive_size t.name) ∙ hb' in cc in
      let whole : one ≡ size = (unfold fixed_dims in cc) in
      fixed_dims-product c f t.dimensions base hv h2
      ∙ ap (λ k. k * product extents) (sym same ∙ whole)

fixed_type_size_from-product :
    {F L : Type 0} (p : Plan F) (c : CLibrary F L) (fuel : ℕ) (t : CoreType)
    (f : CoreType → Result ℕ) {size n : ℕ} {extents : List ℕ}
    → fixed_type_size_from p c (err out_of_fuel) fuel [] (element t) ≡ ok size
    → dimension_values c f [] t.dimensions ≡ ok extents
    → fixed_type_size_from p c (err out_of_fuel) fuel [] t ≡ ok n
    → n ≡ size * product extents
unfolding fixed_type_size_from
fixed_type_size_from-product p c zero t f {size} {n} hs hv h = cc
fixed_type_size_from-product p c (suc fuel) t f hs hv h =
    fixed_step-product p c (fixed_type_size_from p c (err out_of_fuel) fuel) [] t f hs hv h

-- Where `fixedTypeSize` finds a size for an array type whose descriptor is made without values of
-- symbols, that size is the descriptor's element size times its element count.
pub make_array_descriptor-fixed_type_size :
    {F L : Type 0} (p : Plan F) (c : CLibrary F L) (t : CoreType) (d : ArrayDescriptor) {n : ℕ}
    → make_array_descriptor c (fixed_type_size p c) t [] ≡ ok d
    → fixed_type_size p c t ≡ ok n
    → n ≡ d.element_size * d.element_count
unfolding fixed_type_size
make_array_descriptor-fixed_type_size p c t d {n} made sized =
    let facts = make_array_descriptor-facts c (fixed_type_size p c) t [] d made in
    let element_sized = (make_array_descriptor-fields c (fixed_type_size p c) t [] d made).0 in
    fixed_type_size_from-product p c (layout_fuel p) t (fixed_type_size p c) element_sized facts.0
      sized
    ∙ ap (λ k. d.element_size * k) (sym facts.1)
