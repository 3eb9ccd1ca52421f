-- ===== src/Plan/Bounds/Order.antt =====
-- plan/PlanBuilder.cpp: the smallest size of a walk over members is at most its largest.
pub mod Members
use native.Mathlib.Nat.{div-add-mod, mod-lt, mul-le-mul_left, mul-le-mul_right}
use embx.Prelude.{
  ℕ, zero, suc, ◌+◌, ◌-◌, ◌*◌, ◌/◌, ◌%◌, ◌^◌, ◌≤◌, ◌<◌, ◌≡◌, refl, arith, min, max, String, Bool,
  true, false, Option, none, some, ltb, ◌==◌, if◌then◌else◌, inl, inr, Bool-cases, ltb→lt, ap,
  Option-cases, not, ◌&&◌,
}
use embx.Prelude.Result.{
  Result, ok, err, ◌>>=◌, ◌>>◌, refuse_if, Yields, >>=-Yields, refuse_if-Yields,
}
use embx.Core.Types.{CoreType}
use embx.Runtime.Host.{size_max}
use embx.Plan.Model.{
  Op, null_op, field_op, virtual_op, alias_op, bits_op, variant_op, conditional_op, block_op, at_op,
  align_op, callback_op, Ops, no_ops, cons_op, Cases, no_cases, cons_case, LayoutBounds,
}
use embx.Plan.Sizes.{add_checked}
use embx.Plan.Bounds.{
  bounds, multiply_max, multiply_bounds, SequenceBounds, start_at, max_both, add_max, moved,
  add_cursor, merge_extent, align_up, align_max, align_step, extent, either_bounds, BranchBounds,
  no_branch, take_branch, branches, block_bounds, default_bounds, member_bounds, cases_bounds,
  sequence_from,
}

-- There is no largest size, or it is at least `n`.
abbrev pub Within : ℕ → Option ℕ → Type 0
Within n none = Unit {0}
Within n (some m) = n ≤ m

abbrev pub Ordered : LayoutBounds → Type 0
Ordered b = Within b.min_size b.max_size

abbrev pub SequenceOrdered : SequenceBounds → Type 0
SequenceOrdered s = Within s.cursor_min s.cursor_max × Within s.extent_min s.extent_max

-- The least multiple of `a` from `x` on.
unfoldable pub aligned : ℕ → ℕ → ℕ
aligned a x = if x % a == 0 then x else x + (a - x % a)

pub add_checked-Yields :
    (a b : ℕ) (message : String) → Yields (λ n. n ≡ a + b) (add_checked a b message)
unfolding add_checked
add_checked-Yields a b message =
    refuse_if-Yields (λ n. n ≡ a + b) (ltb (size_max - a) b) message (ok (a + b)) (λ _. refl)

Within-max : (a b : ℕ) (m n : Option ℕ) → Within a m → Within b n → Within (max a b) (max_both m n)
Within-max a b none n u v = tt
Within-max a b (some m) none u v = tt
Within-max a b (some m) (some n) u v = omega arith

moved-Ordered :
    (s : SequenceBounds) (n : ℕ) (m : Option ℕ)
    → SequenceOrdered s
    → Within n m
    → SequenceOrdered (moved s n m)
moved-Ordered s n m o w = (w, Within-max s.extent_min n s.extent_max m o.1 w)

add_max-Yields :
    (a b : ℕ) (m n : Option ℕ) → Within a m → Within b n → Yields (Within (a + b)) (add_max m n)
add_max-Yields a b none n u v = tt
add_max-Yields a b (some m) none u v = tt
add_max-Yields a b (some m) (some n) u v =
    >>=-Yields (λ k. k ≡ m + n) (Within (a + b)) (add_checked m n "layout maximum overflow")
      (λ k. ok (some k)) (add_checked-Yields m n _) (λ k e. omega arith)

pub add_cursor-Ordered :
    (s : SequenceBounds) (b : LayoutBounds)
    → SequenceOrdered s
    → Ordered b
    → Yields SequenceOrdered (add_cursor s b)
unfolding add_cursor
add_cursor-Ordered s b o w =
    >>=-Yields (λ n. n ≡ s.cursor_min + b.min_size) SequenceOrdered
      (add_checked s.cursor_min b.min_size "layout minimum overflow") _ (add_checked-Yields _ _ _)
      (λ n e.
        >>=-Yields (Within (s.cursor_min + b.min_size)) SequenceOrdered
          (add_max s.cursor_max b.max_size) _ (add_max-Yields _ _ _ _ o.0 w)
          (λ m v. moved-Ordered s n m o (rw e v)))

pub merge_extent-Ordered :
    (s child : SequenceBounds)
    → SequenceOrdered s
    → SequenceOrdered child
    → SequenceOrdered (merge_extent s child)
unfolding merge_extent
merge_extent-Ordered s child o w =
    (o.0, Within-max s.extent_min child.extent_min s.extent_max child.extent_max o.1 w.1)

align_up-Yields :
    (a x : ℕ) (message : String) → Yields (λ n. n ≡ aligned a x) (align_up a x message)
unfolding aligned
align_up-Yields a x message = elim (Bool-cases (x % a == 0)) [
  | inl e ↦ rw e refl
  | inr e ↦ rw e (add_checked-Yields x (a - x % a) message)
]

quotient-step : (a q r : ℕ) → q < r → a * q + a ≤ a * r
quotient-step a q r less =
    let e : a * (q + 1) ≤ a * r = mul-le-mul_left a (omega arith) in omega arith

aligned_mono : (a x y : ℕ) → 0 < a → x ≤ y → aligned a x ≤ aligned a y
unfolding aligned
aligned_mono a x y pos le =
    let ex = div-add-mod x a in
    let ey = div-add-mod y a in
    let mx = mod-lt x pos in
    let my = mod-lt y pos in
    elim (Bool-cases (ltb (x / a) (y / a))) [
      | inl less ↦ ground (arith, quotient-step a (x / a) (y / a) (ltb→lt _ _ less))
      | inr ge ↦ elim (Bool-cases (ltb (y / a) (x / a))) [
        | inl more ↦ let e = quotient-step a (y / a) (x / a) (ltb→lt _ _ more) in omega arith
        | inr le' ↦
            let same : x / a ≡ y / a = ground arith in
            let products : a * (x / a) ≡ a * (y / a) = ap (λ q. a * q) same in ground arith
      ]
    ]

align_max-Yields :
    (a x : ℕ) (m : Option ℕ) → 0 < a → Within x m → Yields (Within (aligned a x)) (align_max a m)
align_max-Yields a x none pos w = tt
align_max-Yields a x (some m) pos w =
    >>=-Yields (λ k. k ≡ aligned a m) (Within (aligned a x))
      (align_up a m "layout maximum overflow") (λ k. ok (some k)) (align_up-Yields a m _)
      (λ k e. rw e (aligned_mono a x m pos w))

pub align_step-Ordered :
    (alignment : Option ℕ) (s : SequenceBounds)
    → SequenceOrdered s
    → Yields SequenceOrdered (align_step alignment s)
unfolding align_step
align_step-Ordered none s o = tt
align_step-Ordered (some a) s o =
    refuse_if-Yields SequenceOrdered (a == 0) "align is not finalized" _ (λ nonzero.
      let pos : 0 < a = ground arith in
      >>=-Yields (λ n. n ≡ aligned a s.cursor_min) SequenceOrdered
        (align_up a s.cursor_min "layout minimum overflow") _ (align_up-Yields a s.cursor_min _)
        (λ n e.
          >>=-Yields (Within (aligned a s.cursor_min)) SequenceOrdered (align_max a s.cursor_max) _
            (align_max-Yields a s.cursor_min s.cursor_max pos o.0)
            (λ m v. moved-Ordered s n m o (rw e v))))

multiply_max-Yields :
    (a n : ℕ) (m : Option ℕ) → Within a m → Yields (Within (a * n)) (multiply_max m n)
multiply_max-Yields a n none w = tt
multiply_max-Yields a n (some m) w =
    refuse_if-Yields (Within (a * n)) (not (m == 0) && ltb (size_max / m) n)
      "layout maximum overflow" (ok (some (m * n))) (λ _. mul-le-mul_right n w)

pub multiply_bounds-Ordered :
    (b : LayoutBounds) (n : ℕ) → Ordered b → Yields Ordered (multiply_bounds b n)
unfolding multiply_bounds
multiply_bounds-Ordered b n o =
    refuse_if-Yields Ordered (not (b.min_size == 0) && ltb (size_max / b.min_size) n)
      "layout minimum overflow" (multiply_max b.max_size n >>= λ m. ok (bounds (b.min_size * n) m))
      (λ _.
        >>=-Yields (Within (b.min_size * n)) Ordered (multiply_max b.max_size n)
          (λ m. ok (bounds (b.min_size * n) m)) (multiply_max-Yields b.min_size n b.max_size o)
          (λ m w. w))

pub either_bounds-Ordered :
    (a b : LayoutBounds) → Ordered a → Ordered b → Ordered (either_bounds a b)
unfolding either_bounds
either_bounds-Ordered a b u v = elim (Option-cases a.max_size) [
  | inl e ↦ rw e tt
  | inr (m, e) ↦ elim (Option-cases b.max_size) [
    | inl e' ↦ rw (e, e') tt
    | inr (n, e') ↦
        let u' : a.min_size ≤ m = rw e at u in
        let v' : b.min_size ≤ n = rw e' at v in rw (e, e') (omega arith)
  ]
]

-- Once a branch is taken, the bounds are those of some branches.
abbrev pub BranchOrdered : BranchBounds → Type 0
BranchOrdered s = s.have ≡ true → Within s.min_value s.max_value

Within-min : (a b : ℕ) (m n : Option ℕ) → Within b n → Within (min a b) (max_both m n)
Within-min a b none n v = tt
Within-min a b (some m) none v = tt
Within-min a b (some m) (some n) v = omega arith

pub take_branch-Ordered :
    (s : BranchBounds) (b : LayoutBounds) → Ordered b → BranchOrdered (take_branch s b)
unfolding take_branch
take_branch-Ordered s b o h = Within-min s.min_value b.min_size s.max_value b.max_size o

pub branches-Ordered : (s : BranchBounds) → BranchOrdered s → Ordered (branches s)
unfolding branches
branches-Ordered s o = elim (Bool-cases s.have) [ inl e ↦ rw e (o e) | inr e ↦ rw e (omega arith) ]

pub block_bounds-Ordered : (n : Option ℕ) → Ordered (block_bounds n)
block_bounds-Ordered none = tt
block_bounds-Ordered (some n) = omega arith

pub start_at-Ordered : (n : ℕ) → SequenceOrdered (start_at n)
start_at-Ordered n = (omega arith, omega arith)
