-- ===== src/Plan/TypeBounds/Fuel.antt =====
-- plan/PlanBuilder.cpp: the fuel of `layoutBounds`, with the measure of the fixed sizes.
use mathlib.Core.Path.{fun_ext}
use embx.Prelude.{
  ℕ, zero, suc, ◌+◌, ◌<◌, ◌≡◌, refl, ap, arith, Option, none, some, List, [], ◌∷◌, inl, inr,
  Option-cases,
}
use embx.Prelude.Result.{Result, ok, err, ◌>>=◌}
use embx.Core.CLibrary.{CLibrary}
use embx.Core.Symbol.{SymbolId}
use embx.Core.Types.{CoreType}
use embx.Plan.Model.{Struct, Alias, Plan, LayoutBounds}
use embx.Plan.Sizes.{
  find_struct_by_type, find_alias_by_type, find_enum_by_type, layout_fuel, primitive_size,
  out_of_fuel,
}
use embx.Plan.Sizes.Fuel.{
  remaining, remaining-lt-layout_fuel, remaining-struct, remaining-alias, enter-agree,
}
use embx.Plan.Bounds.{sequence_from, start_at, extent}
use embx.Plan.TypeBounds.{
  alias_bounds, struct_bounds, base_bounds, bounds_step, layout_bounds_from, layout_bounds,
}

module _ {F L : Type 0} (p : Plan F) (c : CLibrary F L)
    (rec rec' : List SymbolId → CoreType → Result LayoutBounds) (visiting : List SymbolId)
    (t : CoreType)
    (same : remaining p (t.reference ∷ visiting) < remaining p visiting
      → (u : CoreType) → rec (t.reference ∷ visiting) u ≡ rec' (t.reference ∷ visiting) u) where
  alias_bounds-agree :
      (o : Option Alias)
      → find_alias_by_type p t ≡ o
      → alias_bounds p rec visiting t o ≡ alias_bounds p rec' visiting t o
  alias_bounds-agree none h = refl
  alias_bounds-agree (some a) h =
      enter-agree t visiting "cyclic alias in layout bounds: " (λ inner. rec inner a.target)
        (λ inner. rec' inner a.target) (λ new. same (remaining-alias p visiting t new h) a.target)

  struct_bounds-agree :
      (o : Option (Struct F))
      → find_struct_by_type p t ≡ o
      → struct_bounds p rec visiting t o ≡ struct_bounds p rec' visiting t o
  struct_bounds-agree (some s) h =
      enter-agree t visiting "cyclic struct reference in layout bounds: "
        (λ inner. sequence_from (rec inner) s.members (start_at 0) >>= λ seq. ok (extent seq))
        (λ inner. sequence_from (rec' inner) s.members (start_at 0) >>= λ seq. ok (extent seq))
        (λ new.
          ap (λ r. sequence_from r s.members (start_at 0) >>= λ seq. ok (extent seq))
            (fun_ext (same (remaining-struct p visiting t new h))))
  struct_bounds-agree none h = elim (Option-cases (find_enum_by_type p t)) [
    | inl e ↦ rw e (alias_bounds-agree (find_alias_by_type p t) refl)
    | inr (en, e) ↦ rw e refl
  ]

  base_bounds-agree :
      (o : Option ℕ) → base_bounds p rec visiting t o ≡ base_bounds p rec' visiting t o
  unfolding base_bounds
  base_bounds-agree (some n) = refl
  base_bounds-agree none = rw (struct_bounds-agree (find_struct_by_type p t) refl) refl

  bounds_step-agree : bounds_step p c rec visiting t ≡ bounds_step p c rec' visiting t
  unfolding bounds_step
  bounds_step-agree = rw (base_bounds-agree (primitive_size t.name)) refl

-- With more fuel than there are types left to visit, neither the fuel nor its end matters.
pub layout_bounds_from-agree :
    {F L : Type 0} (p : Plan F) (c : CLibrary F L) (stop stop' : Result LayoutBounds)
    (fuel fuel' : ℕ) (visiting : List SymbolId) (t : CoreType)
    → remaining p visiting < fuel
    → remaining p visiting < fuel'
    → layout_bounds_from p c stop fuel visiting t ≡ layout_bounds_from p c stop' fuel' visiting t
unfolding layout_bounds_from
layout_bounds_from-agree p c stop stop' zero fuel' visiting t a b = ground arith
layout_bounds_from-agree p c stop stop' (suc fuel) zero visiting t a b = ground arith
layout_bounds_from-agree p c stop stop' (suc fuel) (suc fuel') visiting t a b =
    bounds_step-agree p c (layout_bounds_from p c stop fuel) (layout_bounds_from p c stop' fuel')
      visiting t
      (λ less u.
        layout_bounds_from-agree p c stop stop' fuel fuel' (t.reference ∷ visiting) u (omega arith)
          (omega arith))

-- `layoutBounds` ends on every plan, one with cyclic types included: whatever stands for the end of
-- the fuel, and whatever fuel is added, the result is the same.
pub layout_bounds-ends :
    {F L : Type 0} (p : Plan F) (c : CLibrary F L) (stop : Result LayoutBounds) (extra : ℕ)
    (t : CoreType)
    → layout_bounds_from p c stop (layout_fuel p + extra) [] t ≡ layout_bounds p c t
unfolding layout_bounds
layout_bounds-ends p c stop extra t =
    let less : remaining p [] < layout_fuel p = remaining-lt-layout_fuel p [] in
    layout_bounds_from-agree p c stop (err out_of_fuel) (layout_fuel p + extra) (layout_fuel p) [] t
      (omega arith) less
