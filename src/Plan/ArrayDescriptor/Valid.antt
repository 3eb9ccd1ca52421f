-- ===== src/Plan/ArrayDescriptor/Valid.antt =====
-- plan/ArrayDescriptor.cpp: what `makeArrayDescriptor` returns.
use embx.Prelude.{ℕ, [], ◌≡◌, ◌≤◌, ◌<◌, ap, sym, ◌∙◌, List, if◌then◌else◌}
use embx.Prelude.Result.{Result, ok, err, >>=-eq-ok, refuse_if-eq-ok}
use embx.Core.CLibrary.{CLibrary}
use embx.Core.Symbol.{SymbolId, valid}
use embx.Core.Types.{CoreType}
use embx.Runtime.Host.{size_max}
use embx.Runtime.Array.{ArrayDescriptor, checked_element_count, descriptor_valid}
use embx.Runtime.Array.Place.{product, descriptor-facts}
use embx.Runtime.Evaluator.{Value}
use embx.Plan.ArrayDescriptor.{
  has_none, is_unknown, with_message, element_kind, element_size, dimension_values,
  make_array_descriptor,
}

with_message-eq-ok : (r : Result ℕ) {n : ℕ} → with_message r ≡ ok n → r ≡ ok n
with_message-eq-ok (ok m) h = h
with_message-eq-ok (err e) h = cc

-- What the fields of a descriptor that is returned are computed from, and its check.
pub make_array_descriptor-fields :
    {F L : Type 0} (c : CLibrary F L) (fixed_type_size : CoreType → Result ℕ) (type : CoreType)
    (env : List (SymbolId × Value F)) (d : ArrayDescriptor)
    → make_array_descriptor c fixed_type_size type env ≡ ok d
    → (fixed_type_size (record type { dimensions = [] }) ≡ ok d.element_size)
      × (dimension_values c fixed_type_size env type.dimensions ≡ ok d.dimensions)
      × (checked_element_count d.dimensions ≡ ok d.element_count)
      × (descriptor_valid d ≡ ok tt)
unfolding make_array_descriptor element_size
make_array_descriptor-fields c fixed_type_size type env d h =
    let (some_dims, h1) = refuse_if-eq-ok (has_none type.dimensions) _ _ h in
    let (known, h2) = refuse_if-eq-ok (is_unknown (element_kind type.kind)) _ _ h1 in
    let (size, hs, h3) = >>=-eq-ok (with_message (element_size c fixed_type_size type)) _ h2 in
    let (extents, he, h4) =
      >>=-eq-ok (dimension_values c fixed_type_size env type.dimensions) _ h3 in
    let (count, hc, h5) = >>=-eq-ok (checked_element_count extents) _ h4 in
    let made : ArrayDescriptor = record {
      element_kind = element_kind type.kind;
      element_type_id = if valid type.reference then type.reference else 0;
      element_size = size;
      element_count = count;
      dimensions = extents;
    } in
    let (u, hv, done) = >>=-eq-ok (descriptor_valid made) _ h5 in
    let same : made ≡ d = cc in
    (
      with_message-eq-ok (element_size c fixed_type_size type) hs
          ∙ ap (λ (x : ArrayDescriptor). ok x.element_size) same,
      he ∙ ap (λ (x : ArrayDescriptor). ok x.dimensions) same,
      sym (ap (λ (x : ArrayDescriptor). checked_element_count x.dimensions) same)
          ∙ hc
          ∙ ap (λ (x : ArrayDescriptor). ok x.element_count) same,
      sym (ap descriptor_valid same) ∙ hv,
    )

pub make_array_descriptor-facts :
    {F L : Type 0} (c : CLibrary F L) (fixed_type_size : CoreType → Result ℕ) (type : CoreType)
    (env : List (SymbolId × Value F)) (d : ArrayDescriptor)
    → make_array_descriptor c fixed_type_size type env ≡ ok d
    → (dimension_values c fixed_type_size env type.dimensions ≡ ok d.dimensions)
      × (d.element_count ≡ product d.dimensions)
      × (product d.dimensions ≤ size_max)
      × (0 < d.element_size)
make_array_descriptor-facts c fixed_type_size type env d h =
    let fields = make_array_descriptor-fields c fixed_type_size type env d h in
    let facts = descriptor-facts d tt fields.3 in (fields.1, facts.0, facts.1, facts.2)
