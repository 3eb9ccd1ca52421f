-- ===== src/Plan/Layout/Placed.antt =====
-- plan/PlanBuilder.cpp: where `computeStructLayout` puts the members of a struct.

use embx.Prelude.{
  ℕ, ◌+◌, ◌-◌, ◌≤◌, ◌≡◌, refl, sym, ap, arith, String, true, false, not, ◌&&◌, Option, none, some,
  ltb, inl, inr, Bool-cases,
}
use embx.Prelude.Result.{
  >>=-eq-ok, Result, ok, err, ◌>>=◌, Yields, >>=-Yields, Yields-ok, if-Yields,
}
use embx.Core.CLibrary.{CLibrary}
use embx.Core.Expr.{Expr}
use embx.Runtime.Host.{size_max}
use embx.Plan.Model.{
  Field, Op, null_op, field_op, virtual_op, alias_op, bits_op, variant_op, conditional_op, block_op,
  at_op, align_op, callback_op, Ops, no_ops, cons_op, Struct, Plan,
}
use embx.Plan.Sizes.{fixed_type_size, is_empty}
use embx.Plan.Layout.Moved.{
  Moved, advance-Moved, offset_field-known, offset_field-type, known_size-eq-ok, align_layout-Moved,
  block_layout-Moved,
}
use embx.Plan.Layout.Place.{
  AlignedTo, PlacedOp, Placed, PlacedOp-larger, is_conditional, has_conditional,
}
use embx.Plan.Layout.{
  LayoutState, unknown, advance, has_length, is_text, offset_field, extend_at, size_field, place_at,
  placed_at, align_layout, block_layout, known_size, fixed_members_extent, layout_op, layout_ops,
  start, finished, compute_struct_layout,
}

module _ {F L : Type 0} (p : Plan F) (c : CLibrary F L) (name : String) where
  abbrev Stepped : LayoutState → Op F × LayoutState → Type 0
  Stepped s r = Moved (λ to. PlacedOp p c r.1.max_end s.offset to r.0) s r.1

  with_op :
      (At : ℕ → Type 0) (s : LayoutState) (op : Op F) (r : Result LayoutState)
      → Yields (Moved At s) r
      → ((size to : ℕ) → At to → PlacedOp p c size s.offset to op)
      → Yields (Stepped s) (r >>= λ s'. ok (op, s'))
  with_op At s op r y same =
      >>=-Yields (Moved At s) (Stepped s) r (λ s'. ok (op, s')) y
        (λ s' m known.
          let (before, le, grown, at) = m known in
          (before, le, grown, same s'.max_end s'.offset at))

  size_field-Stepped :
      (f : Field F) (o : Option ℕ) (s : LayoutState)
      → ((n : ℕ) → o ≡ some n → fixed_type_size p c f.type ≡ ok n)
      → Yields (Stepped s) (size_field name (offset_field f s) o s)
  unfolding PlacedOp
  size_field-Stepped f none s sized = λ known. cc
  size_field-Stepped f (some n) s sized =
      let g = offset_field f s in
      if-Yields (Stepped s)
        (not (has_length g.static_length) && is_text g.type && not (is_empty g.type.dimensions))
        (ok (field_op g, unknown s))
        (advance name s n >>= λ s'. ok (field_op (record g { static_size = some n }), s'))
        (λ b known. cc)
        (λ b.
          let At : ℕ → Type 0 = λ to.
            (g.static_offset ≡ some s.offset)
            × ((m : ℕ) × (some n ≡ some m)
                × (fixed_type_size p c g.type ≡ ok m)
                × (to ≡ s.offset + m)) in
          with_op At s (field_op (record g { static_size = some n })) (advance name s n)
            (advance-Moved At name s n (λ known. (
              offset_field-known f s known,
              (n, refl, rw (offset_field-type f s) (sized n refl), refl),
            )))
            (λ size to h. h))

  extend_at-Stepped :
      (e : Expr) (place : Option ℕ) (extent : Result ℕ) (members : Ops F) (s : LayoutState)
      → fixed_members_extent p c members ≡ extent
      → (s.known ≡ true → s.offset ≤ s.max_end)
      → Stepped s (at_op e place members, extend_at place (known_size extent) s)
  unfolding PlacedOp known_size
  extend_at-Stepped e none extent members s same le = λ known. cc
  extend_at-Stepped e (some o) (err m) members s same le = λ known. cc
  extend_at-Stepped e (some o) (ok i) members s same le = elim (Bool-cases (ltb (size_max - i) o)) [
    | inl b ↦ rw b (λ known. cc)
    | inr b ↦ rw b (λ known.
        let l = le known in
        (known, omega arith, omega arith, (refl, (o, i, refl, same, omega arith))))
  ]

  layout_op-Stepped :
      (op : Op F) (s : LayoutState)
      → is_conditional op ≡ false
      → (s.known ≡ true → s.offset ≤ s.max_end)
      → Yields (Stepped s) (layout_op p c name op s)
  unfolding layout_op PlacedOp
  layout_op-Stepped null_op s plain le = tt
  layout_op-Stepped (field_op f) s plain le =
      size_field-Stepped f (known_size (fixed_type_size p c f.type)) s
        (λ n h. known_size-eq-ok (fixed_type_size p c f.type) h)
  layout_op-Stepped (virtual_op a b e) s plain le = λ known. (known, le known, omega arith, refl)
  layout_op-Stepped (alias_op a b d e) s plain le = λ known. (known, le known, omega arith, refl)
  layout_op-Stepped (bits_op fields total storage) s plain le =
      let op : Op F = bits_op fields total storage in
      let At : ℕ → Type 0 = λ to. to ≡ s.offset + storage in
      if-Yields (Stepped s) s.known (advance name s storage >>= λ s'. ok (op, s')) (ok (op, s))
        (λ k.
          with_op At s op (advance name s storage) (advance-Moved At name s storage (λ known. refl))
            (λ size to h. h))
        (λ k known. cc)
  layout_op-Stepped (variant_op a b d e f g) s plain le = λ known. cc
  layout_op-Stepped (conditional_op a b d) s plain le = cc
  layout_op-Stepped (block_op b e o members) s plain le =
      with_op (λ to. (n : ℕ) × (o ≡ some n) × (to ≡ s.offset + n)) s (block_op b e o members)
        (block_layout name o s) (block_layout-Moved name o s) (λ size to h. h)
  layout_op-Stepped (at_op e o members) s plain le =
      if-Yields (Stepped s) s.known (placed_at p c e (place_at p c e o s) members s)
        (ok (at_op e o members, s))
        (λ k.
          extend_at-Stepped e (place_at p c e o s) (fixed_members_extent p c members) members s refl
            le)
        (λ k known. cc)
  layout_op-Stepped (align_op e a) s plain le =
      with_op (AlignedTo a s.offset) s (align_op e a) (align_layout name a s)
        (align_layout-Moved name a s le) (λ size to h. h)
  layout_op-Stepped (callback_op a b e) s plain le = λ known. cc

  abbrev AllStepped : LayoutState → Ops F × LayoutState → Type 0
  AllStepped s r =
      r.1.known ≡ true
      → (s.known ≡ true) × (s.max_end ≤ r.1.max_end) × Placed p c r.1.max_end s.offset r.0

  -- Once the offsets are not known, they stay so.
  layout_ops-Stepped :
      (ops : Ops F) (s : LayoutState)
      → has_conditional ops ≡ false
      → (s.known ≡ true → s.offset ≤ s.max_end)
      → Yields (AllStepped s) (layout_ops p c name ops s)
  unfolding layout_ops Placed has_conditional
  layout_ops-Stepped no_ops s plain le = λ known. (known, omega arith, le known)
  layout_ops-Stepped (cons_op op rest) s plain le =
      >>=-Yields (Stepped s) (AllStepped s) (layout_op p c name op s)
        (λ first.
          layout_ops p c name rest first.1 >>= λ others. ok (cons_op first.0 others.0, others.1))
        (layout_op-Stepped op s (ground arith) le)
        (λ first one.
          >>=-Yields (AllStepped first.1) (AllStepped s) (layout_ops p c name rest first.1)
            (λ others. ok (cons_op first.0 others.0, others.1))
            (layout_ops-Stepped rest first.1 (ground arith) (λ known. (one known).1))
            (λ others all known.
              let (middle, grown, tail) = all known in
              let (before, inside, larger, placed) = one middle in
              (
                before,
                omega arith,
                (
                  first.1.offset,
                  PlacedOp-larger p c first.1.max_end others.1.max_end s.offset first.1.offset
                      first.0 grown placed,
                  tail,
                ),
              )))

-- Where `computeStructLayout` gives a struct that had none, and that has no conditional among its
-- members, a static size, the members lie one behind the other from 0 on and none ends behind the
-- size: every field has a known offset and the size of its type, what an `at` places ends within the
-- size, and there is no variant and no callback.
pub compute_struct_layout-Placed :
    {F L : Type 0} (p : Plan F) (c : CLibrary F L) (st : Struct F) {done : Struct F} {n : ℕ}
    → has_conditional st.members ≡ false
    → st.static_size ≡ none
    → compute_struct_layout p c st ≡ ok done
    → done.static_size ≡ some n
    → Placed p c n 0 done.members
unfolding compute_struct_layout
compute_struct_layout-Placed {F} p c st {done} {n} plain fresh h size =
    let (r, steps, e) =
      >>=-eq-ok (layout_ops p c st.name st.members start) (λ r. ok (finished st r)) h in
    let same : finished st r ≡ done = cc in
    let sized : (finished st r).static_size ≡ some n = rw (sym same) at size in
    elim (Bool-cases r.1.known) [
      | inr k ↦ let none_some : st.static_size ≡ some n = rw k at sized in cc
      | inl k ↦
          let some_some : some r.1.max_end ≡ some n = rw k at sized in
          let end : r.1.max_end ≡ n = cc in
          let (middle, grown, placed) =
            Yields-ok (AllStepped p c st.name start) _
              (layout_ops-Stepped p c st.name st.members start plain (λ known. omega arith)) steps
              k in
          let members : r.0 ≡ done.members = ap (λ (x : Struct F). x.members) same in
          rw (end, members) at placed
    ]
