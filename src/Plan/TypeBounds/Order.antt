-- ===== src/Plan/TypeBounds/Order.antt =====
-- plan/PlanBuilder.cpp: the smallest size of a type is at most its largest.
use embx.Prelude.{
  ℕ, zero, suc, ◌+◌, ◌-◌, ◌≤◌, ◌≡◌, arith, String, not, ◌&&◌, Option, none, some, List, [], ◌∷◌,
  ltb, length, inl, inr, str_eq, ◌||◌, Bool-cases,
}
use embx.Prelude.Result.{
  Result, ok, err, ◌>>=◌, Yields, >>=-Yields, refuse_if-Yields, Yields-ok, Result-cases,
}
use embx.Core.CLibrary.{CLibrary}
use embx.Core.Symbol.{SymbolId}
use embx.Core.Types.{Dimension, CoreType, is_remaining}
use embx.Runtime.Host.{size_max}
use embx.Plan.Model.{Struct, Enum, Alias, Plan, LayoutBounds}
use embx.Plan.Sizes.{
  enter, primitive_size, find_struct_by_type, find_alias_by_type, find_enum_by_type, enum_size,
  is_empty, out_of_fuel, layout_fuel,
}
use embx.Plan.Visiting.{seen}
use embx.Plan.Bounds.{bounds, dimension_count, sequence_from, start_at, extent}
use embx.Plan.Bounds.Order.{Ordered, SequenceOrdered, multiply_bounds-Ordered, start_at-Ordered}
use embx.Plan.Bounds.Order.Members.{sequence_from-Ordered}
use embx.Plan.TypeBounds.{
  is_bytes, one_remaining, terminated_max, terminated_bounds, alias_bounds, enum_bounds,
  struct_bounds, base_bounds, counted, dims_bounds, bounds_step, layout_bounds_from, layout_bounds,
}

terminated_max-Ordered : (o : Option ℕ) (marker : ℕ) → Yields Ordered (terminated_max o marker)
terminated_max-Ordered none marker = tt
terminated_max-Ordered (some payload) marker =
    refuse_if-Yields Ordered (ltb (size_max - marker) payload)
      "terminated sequence maximum length overflow" (ok (bounds marker (some (payload + marker))))
      (λ _. omega arith)

terminated_bounds-Ordered : (t : CoreType) → Yields Ordered (terminated_bounds t)
unfolding terminated_bounds
terminated_bounds-Ordered t =
    refuse_if-Yields Ordered
      (not (is_bytes t.kind && is_empty t.dimensions) && not (one_remaining t.dimensions))
      "invalid terminated sequence type" (terminated_max t.max_payload (length t.terminator))
      (λ _. terminated_max-Ordered t.max_payload (length t.terminator))

enter-Yields {ℓ κ} :
    {A : Type ℓ} (P : A → Type κ) (t : CoreType) (visiting : List SymbolId) (message : String)
    (step : List SymbolId → Result A)
    → Yields P (step (t.reference ∷ visiting))
    → Yields P (enter t visiting message step)
enter-Yields P t visiting message step y = elim (Bool-cases (seen t.reference visiting)) [
  | inl e ↦ rw e tt
  | inr e ↦ rw e y
]

module _ {F L : Type 0} (p : Plan F) (c : CLibrary F L)
    (rec : List SymbolId → CoreType → Result LayoutBounds)
    (ordered : (visiting : List SymbolId) (t : CoreType) → Yields Ordered (rec visiting t))
    (visiting : List SymbolId) (t : CoreType) where
  alias_bounds-Ordered : (o : Option Alias) → Yields Ordered (alias_bounds p rec visiting t o)
  alias_bounds-Ordered none = tt
  alias_bounds-Ordered (some a) =
      enter-Yields Ordered t visiting "cyclic alias in layout bounds: "
        (λ inner. rec inner a.target) (ordered _ a.target)

  enum_bounds-Ordered : (o : Option (Enum F)) → Yields Ordered (enum_bounds p rec visiting t o)
  enum_bounds-Ordered none = alias_bounds-Ordered (find_alias_by_type p t)
  enum_bounds-Ordered (some e) = elim (Result-cases (enum_size p e)) [
    | inl (n, h) ↦ rw h (omega arith)
    | inr (m, h) ↦ rw h tt
  ]

  struct_bounds-Ordered :
      (o : Option (Struct F)) → Yields Ordered (struct_bounds p rec visiting t o)
  struct_bounds-Ordered none = enum_bounds-Ordered (find_enum_by_type p t)
  struct_bounds-Ordered (some s) =
      enter-Yields Ordered t visiting "cyclic struct reference in layout bounds: "
        (λ inner. sequence_from (rec inner) s.members (start_at 0) >>= λ seq. ok (extent seq))
        (>>=-Yields SequenceOrdered Ordered
          (sequence_from (rec (t.reference ∷ visiting)) s.members (start_at 0))
          (λ seq. ok (extent seq))
          (sequence_from-Ordered (rec (t.reference ∷ visiting)) (ordered (t.reference ∷ visiting))
            s.members (start_at 0) (start_at-Ordered 0))
          (λ seq o. o.1))

  base_bounds-Ordered : (o : Option ℕ) → Yields Ordered (base_bounds p rec visiting t o)
  unfolding base_bounds
  base_bounds-Ordered (some n) = omega arith
  base_bounds-Ordered none = elim (Bool-cases (str_eq t.name "bytes" || str_eq t.name "string")) [
    | inl e ↦ rw e (omega arith)
    | inr e ↦ rw e (struct_bounds-Ordered (find_struct_by_type p t))
  ]

  counted-Ordered : (b : LayoutBounds) (n : Option ℕ) → Ordered b → Yields Ordered (counted b n)
  counted-Ordered b none o = tt
  counted-Ordered b (some n) o = multiply_bounds-Ordered b n o

  dims_bounds-Ordered :
      (b : LayoutBounds) (ds : List Dimension) → Ordered b → Yields Ordered (dims_bounds c b ds)
  unfolding dims_bounds
  dims_bounds-Ordered b [] o = o
  dims_bounds-Ordered b (d ∷ ds) o = elim (Bool-cases (is_remaining d.kind)) [
    | inl e ↦ rw e (dims_bounds-Ordered (bounds 0 none) ds tt)
    | inr e ↦ rw e (elim (Result-cases (dimension_count c d)) [
      | inr (m, h) ↦ rw h tt
      | inl (n, h) ↦ rw h (
          >>=-Yields Ordered Ordered (counted b n) (λ b'. dims_bounds c b' ds)
            (counted-Ordered b n o) (λ b' o'. dims_bounds-Ordered b' ds o'))
    ])
  ]

  bounds_step-Ordered : Yields Ordered (bounds_step p c rec visiting t)
  unfolding bounds_step
  bounds_step-Ordered = elim (Bool-cases (is_empty t.terminator)) [
    | inr e ↦ rw e (terminated_bounds-Ordered t)
    | inl e ↦ rw e (
        >>=-Yields Ordered Ordered (base_bounds p rec visiting t (primitive_size t.name))
          (λ b. dims_bounds c b t.dimensions) (base_bounds-Ordered (primitive_size t.name))
          (λ b o. dims_bounds-Ordered b t.dimensions o))
  ]

layout_bounds_from-Ordered :
    {F L : Type 0} (p : Plan F) (c : CLibrary F L) (message : String) (fuel : ℕ)
    (visiting : List SymbolId) (t : CoreType)
    → Yields Ordered (layout_bounds_from p c (err message) fuel visiting t)
unfolding layout_bounds_from
layout_bounds_from-Ordered p c message zero visiting t = tt
layout_bounds_from-Ordered p c message (suc fuel) visiting t =
    bounds_step-Ordered p c (layout_bounds_from p c (err message) fuel)
      (layout_bounds_from-Ordered p c message fuel) visiting t

-- Where `layoutBounds` of a type succeeds with a largest size, the smallest size is at most the
-- largest.
pub layout_bounds-Ordered :
    {F L : Type 0} (p : Plan F) (c : CLibrary F L) (t : CoreType) {b : LayoutBounds} {m : ℕ}
    → layout_bounds p c t ≡ ok b
    → b.max_size ≡ some m
    → b.min_size ≤ m
unfolding layout_bounds
layout_bounds-Ordered p c t {b = b} h e =
    let o : Ordered b =
      Yields-ok Ordered _ (layout_bounds_from-Ordered p c out_of_fuel (layout_fuel p) [] t) h in
    rw e at o
