-- ===== src/Plan/Layout/Place.antt =====
-- plan/PlanBuilder.cpp: what it means that the members of a struct have their place in it.
use embx.Prelude.{ℕ, ◌+◌, ◌%◌, ◌≤◌, ◌<◌, ◌≡◌, arith, Bool, true, false, ◌||◌, Option, some}
use embx.Prelude.Result.{ok}
use embx.Core.CLibrary.{CLibrary}
use embx.Plan.Model.{
  Op, null_op, field_op, virtual_op, alias_op, bits_op, variant_op, conditional_op, block_op, at_op,
  align_op, callback_op, Ops, no_ops, cons_op, Plan,
}
use embx.Plan.Sizes.{fixed_type_size}
use embx.Plan.Layout.{fixed_members_extent}

-- The first multiple of the alignment from `from` on.
abbrev pub AlignedTo : Option ℕ → ℕ → ℕ → Type 0
AlignedTo alignment from to =
    (n : ℕ) × (alignment ≡ some n) × (to % n ≡ 0) × (from ≤ to) × (to < from + n)

module _ {F L : Type 0} (p : Plan F) (c : CLibrary F L) where
  -- A member lies between `from` and `to` in a struct of this size: a field has its place there and
  -- the size of its type; an alignment goes to the next multiple; an `at` takes nothing there, and what it places ends within the struct; a
  -- conditional takes what both of its branches take.
  unfoldable pub PlacedOp : ℕ → ℕ → ℕ → Op F → Type 0
  PlacedOp size from to (field_op f) =
      (f.static_offset ≡ some from)
      × ((n : ℕ) × (f.static_size ≡ some n) × (fixed_type_size p c f.type ≡ ok n) × (to ≡ from + n))
  PlacedOp size from to (bits_op _ _ storage) = to ≡ from + storage
  PlacedOp size from to (block_op _ _ length _) = (n : ℕ) × (length ≡ some n) × (to ≡ from + n)
  PlacedOp size from to (align_op _ alignment) = AlignedTo alignment from to
  PlacedOp size from to (at_op _ place members) =
      (to ≡ from)
      × ((offset : ℕ) × (inner : ℕ) × (place ≡ some offset)
          × (fixed_members_extent p c members ≡ ok inner)
          × (offset + inner ≤ size))
  PlacedOp size from to (conditional_op _ then_members else_members) =
      (n : ℕ) × (fixed_members_extent p c then_members ≡ ok n)
      × (fixed_members_extent p c else_members ≡ ok n)
      × (to ≡ from + n)
  PlacedOp size from to (virtual_op _ _ _) = to ≡ from
  PlacedOp size from to (alias_op _ _ _ _) = to ≡ from
  PlacedOp size from to _ = ⊥

  -- The members lie one behind the other from `from` on, and none ends behind the size.
  unfoldable pub Placed : ℕ → ℕ → Ops F → Type 0
  Placed size from no_ops = from ≤ size
  Placed size from (cons_op op rest) =
      (next : ℕ) × PlacedOp size from next op × Placed size next rest

  pub PlacedOp-larger :
      (size larger from to : ℕ) (op : Op F)
      → size ≤ larger
      → PlacedOp size from to op
      → PlacedOp larger from to op
  unfolding PlacedOp
  PlacedOp-larger size larger from to null_op le h = h
  PlacedOp-larger size larger from to (field_op f) le h = h
  PlacedOp-larger size larger from to (virtual_op a b e) le h = h
  PlacedOp-larger size larger from to (alias_op a b d e) le h = h
  PlacedOp-larger size larger from to (bits_op a b d) le h = h
  PlacedOp-larger size larger from to (variant_op a b d e f g) le h = h
  PlacedOp-larger size larger from to (conditional_op a b d) le h = h
  PlacedOp-larger size larger from to (block_op a b d e) le h = h
  PlacedOp-larger size larger from to (at_op e place members) le
        (same, (o, i, at, extent, inside)) =
      (same, (o, i, at, extent, omega arith))
  PlacedOp-larger size larger from to (align_op a b) le h = h
  PlacedOp-larger size larger from to (callback_op a b d) le h = h

abbrev pub is_conditional : {F : Type 0} → Op F → Bool
is_conditional (conditional_op _ _ _) = true
is_conditional _ = false

unfoldable pub has_conditional : {F : Type 0} → Ops F → Bool
has_conditional no_ops = false
has_conditional (cons_op op rest) = is_conditional op || has_conditional rest
