-- ===== src/Plan/Bounds/Order/Members.antt =====
-- plan/PlanBuilder.cpp: `memberBounds` and `sequenceBounds` keep the order of the sizes.
use embx.Prelude.{Bool, true, false, Option, none, some, arith}
use embx.Prelude.Result.{Result, ok, ◌>>=◌, Yields, >>=-Yields}
use embx.Core.Types.{CoreType}
use embx.Plan.Model.{
  Op, null_op, field_op, virtual_op, alias_op, bits_op, variant_op, conditional_op, block_op, at_op,
  align_op, callback_op, Ops, no_ops, cons_op, Cases, no_cases, cons_case, LayoutBounds,
}
use embx.Plan.Bounds.{
  SequenceBounds, start_at, add_cursor, merge_extent, align_step, extent, BranchBounds, no_branch,
  take_branch, default_bounds, member_bounds, cases_bounds, sequence_from,
}
use embx.Plan.Bounds.Order.{
  Ordered, SequenceOrdered, BranchOrdered, add_cursor-Ordered, merge_extent-Ordered,
  align_step-Ordered, either_bounds-Ordered, take_branch-Ordered, branches-Ordered,
  block_bounds-Ordered, start_at-Ordered,
}

default_bounds-Ordered :
    (type_bounds : CoreType → Result LayoutBounds)
    (ordered : (t : CoreType) → Yields Ordered (type_bounds t)) (has : Bool) (t : Option CoreType)
    (r : Result SequenceBounds) (s : BranchBounds)
    → Yields SequenceOrdered r
    → BranchOrdered s
    → Yields BranchOrdered (default_bounds type_bounds has t r s)
unfolding default_bounds
default_bounds-Ordered type_bounds ordered false t r s y o = o
default_bounds-Ordered type_bounds ordered true (some t) r s y o =
    >>=-Yields Ordered BranchOrdered (type_bounds t) (λ b. ok (take_branch s b)) (ordered t)
      (λ b w. take_branch-Ordered s b w)
default_bounds-Ordered type_bounds ordered true none r s y o =
    >>=-Yields SequenceOrdered BranchOrdered r (λ b. ok (take_branch s (extent b))) y
      (λ b w. take_branch-Ordered s (extent b) w.1)

module _ {F : Type 0} (type_bounds : CoreType → Result LayoutBounds)
    (ordered : (t : CoreType) → Yields Ordered (type_bounds t)) where
  -- A member that takes its bounds from the cursor on.
  member_step-Ordered :
      (op : Op F) (rest : Ops F) (s : SequenceBounds)
      → SequenceOrdered s
      → Yields Ordered (member_bounds type_bounds op)
      → ((s' : SequenceBounds)
          → SequenceOrdered s'
          → Yields SequenceOrdered (sequence_from type_bounds rest s'))
      → Yields SequenceOrdered (
          member_bounds type_bounds op >>= λ b.
          add_cursor s b >>= λ s'. sequence_from type_bounds rest s')
  member_step-Ordered op rest s o w later =
      >>=-Yields Ordered SequenceOrdered (member_bounds type_bounds op)
        (λ b. add_cursor s b >>= λ s'. sequence_from type_bounds rest s') w
        (λ b v.
          >>=-Yields SequenceOrdered SequenceOrdered (add_cursor s b)
            (λ s'. sequence_from type_bounds rest s') (add_cursor-Ordered s b o v) later)

  mutual
    unfolding member_bounds cases_bounds sequence_from

    member_bounds-Ordered : (op : Op F) → Yields Ordered (member_bounds type_bounds op)
    member_bounds-Ordered null_op = tt
    member_bounds-Ordered (field_op f) = ordered f.type
    member_bounds-Ordered (virtual_op _ _ _) = omega arith
    member_bounds-Ordered (alias_op _ _ _ _) = omega arith
    member_bounds-Ordered (bits_op _ _ storage) = omega arith
    member_bounds-Ordered (variant_op _ _ cases has t members) =
        >>=-Yields BranchOrdered Ordered (cases_bounds type_bounds cases no_branch) _
          (cases_bounds-Ordered cases no_branch (λ h. cc))
          (λ s o.
            >>=-Yields BranchOrdered Ordered
              (default_bounds type_bounds has t (sequence_from type_bounds members (start_at 0)) s)
              _
              (default_bounds-Ordered type_bounds ordered has t _ s
                (sequence_from-Ordered members (start_at 0) (start_at-Ordered 0)) o)
              (λ s' o'. branches-Ordered s' o'))
    member_bounds-Ordered (conditional_op _ yes_members no_members) =
        >>=-Yields SequenceOrdered Ordered (sequence_from type_bounds yes_members (start_at 0)) _
          (sequence_from-Ordered yes_members (start_at 0) (start_at-Ordered 0))
          (λ a u.
            >>=-Yields SequenceOrdered Ordered (sequence_from type_bounds no_members (start_at 0)) _
              (sequence_from-Ordered no_members (start_at 0) (start_at-Ordered 0))
              (λ b v. either_bounds-Ordered (extent a) (extent b) u.1 v.1))
    member_bounds-Ordered (block_op _ _ size _) = block_bounds-Ordered size
    member_bounds-Ordered (at_op _ none members) = tt
    member_bounds-Ordered (at_op _ (some offset) members) =
        >>=-Yields SequenceOrdered Ordered (sequence_from type_bounds members (start_at offset)) _
          (sequence_from-Ordered members (start_at offset) (start_at-Ordered offset)) (λ s o. o.1)
    member_bounds-Ordered (align_op _ _) = omega arith
    member_bounds-Ordered (callback_op _ _ _) = omega arith

    cases_bounds-Ordered :
        (cases : Cases F) (s : BranchBounds)
        → BranchOrdered s
        → Yields BranchOrdered (cases_bounds type_bounds cases s)
    cases_bounds-Ordered no_cases s o = o
    cases_bounds-Ordered (cons_case _ (some t) members rest) s o =
        >>=-Yields Ordered BranchOrdered (type_bounds t) _ (ordered t)
          (λ b w. cases_bounds-Ordered rest (take_branch s b) (take_branch-Ordered s b w))
    cases_bounds-Ordered (cons_case _ none members rest) s o =
        >>=-Yields SequenceOrdered BranchOrdered (sequence_from type_bounds members (start_at 0)) _
          (sequence_from-Ordered members (start_at 0) (start_at-Ordered 0))
          (λ b w.
            cases_bounds-Ordered rest (take_branch s (extent b))
              (take_branch-Ordered s (extent b) w.1))

    pub sequence_from-Ordered :
        (ops : Ops F) (s : SequenceBounds)
        → SequenceOrdered s
        → Yields SequenceOrdered (sequence_from type_bounds ops s)
    sequence_from-Ordered no_ops s o = o
    sequence_from-Ordered (cons_op null_op rest) s o = tt
    sequence_from-Ordered (cons_op (at_op _ none members) rest) s o =
        sequence_from-Ordered rest _ (o.0, tt)
    sequence_from-Ordered (cons_op (at_op _ (some offset) members) rest) s o =
        >>=-Yields SequenceOrdered SequenceOrdered
          (sequence_from type_bounds members (start_at offset)) _
          (sequence_from-Ordered members (start_at offset) (start_at-Ordered offset))
          (λ inner w.
            sequence_from-Ordered rest (merge_extent s inner) (merge_extent-Ordered s inner o w))
    sequence_from-Ordered (cons_op (align_op _ a) rest) s o =
        >>=-Yields SequenceOrdered SequenceOrdered (align_step a s) _ (align_step-Ordered a s o)
          (λ s' o'. sequence_from-Ordered rest s' o')
    sequence_from-Ordered (cons_op (field_op f) rest) s o =
        member_step-Ordered (field_op f) rest s o (member_bounds-Ordered (field_op f))
          (sequence_from-Ordered rest)
    sequence_from-Ordered (cons_op (virtual_op a b e) rest) s o =
        member_step-Ordered (virtual_op a b e) rest s o (member_bounds-Ordered (virtual_op a b e))
          (sequence_from-Ordered rest)
    sequence_from-Ordered (cons_op (alias_op a b e f) rest) s o =
        member_step-Ordered (alias_op a b e f) rest s o (member_bounds-Ordered (alias_op a b e f))
          (sequence_from-Ordered rest)
    sequence_from-Ordered (cons_op (bits_op a b e) rest) s o =
        member_step-Ordered (bits_op a b e) rest s o (member_bounds-Ordered (bits_op a b e))
          (sequence_from-Ordered rest)
    sequence_from-Ordered (cons_op (variant_op a b d e f g) rest) s o =
        member_step-Ordered (variant_op a b d e f g) rest s o
          (member_bounds-Ordered (variant_op a b d e f g)) (sequence_from-Ordered rest)
    sequence_from-Ordered (cons_op (conditional_op a b e) rest) s o =
        member_step-Ordered (conditional_op a b e) rest s o
          (member_bounds-Ordered (conditional_op a b e)) (sequence_from-Ordered rest)
    sequence_from-Ordered (cons_op (block_op a b e f) rest) s o =
        member_step-Ordered (block_op a b e f) rest s o (member_bounds-Ordered (block_op a b e f))
          (sequence_from-Ordered rest)
    sequence_from-Ordered (cons_op (callback_op a b e) rest) s o =
        member_step-Ordered (callback_op a b e) rest s o (member_bounds-Ordered (callback_op a b e))
          (sequence_from-Ordered rest)
