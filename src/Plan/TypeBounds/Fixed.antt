-- ===== src/Plan/TypeBounds/Fixed.antt =====
-- plan/PlanBuilder.cpp: a type with a fixed size has that size as its only bound.
use embx.Prelude.{
  ℕ, ◌+◌, ◌-◌, ◌*◌, ◌/◌, ◌%◌, ◌≤◌, ◌≡◌, refl, arith, max, String, false, not, ◌&&◌, none, some,
  List, [], ◌∷◌, ltb, ◌==◌, if◌then◌else◌, inl, inr, Bool-cases,
}
use embx.Prelude.Result.{Result, ok, err, ◌>>=◌, ◌>>◌, >>=-eq-ok, refuse_if, refuse_if-eq-ok}
use embx.Core.CLibrary.{CLibrary}
use embx.Core.Expr.{Expr}
use embx.Core.Types.{DimensionKind, Dimension, CoreType, is_remaining}
use embx.Runtime.Host.{size_max}
use embx.Plan.Model.{
  Op, null_op, field_op, virtual_op, alias_op, bits_op, variant_op, conditional_op, block_op, at_op,
  align_op, callback_op, Ops, no_ops, cons_op, LayoutBounds,
}
use embx.Plan.Sizes.{add_checked, fixed_op, fixed_ops, fixed_dims, is_fixed, is_null, silent}
use embx.Runtime.Evaluator.{evaluate_size_symbol}
use embx.Plan.Bounds.{
  is_dynamic, dimension_count, SequenceBounds, bounds, add_cursor, align_step, align_up, moved,
  start_at, multiply_bounds, member_bounds, sequence_from,
}
use embx.Plan.TypeBounds.{dims_bounds}

abbrev pub exactly : ℕ → LayoutBounds
exactly n = bounds n (some n)

add_checked-eq-ok :
    (a b : ℕ) (message : String) {n : ℕ}
    → add_checked a b message ≡ ok n
    → (n ≡ a + b) × ((other : String) → add_checked a b other ≡ ok n)
unfolding add_checked
add_checked-eq-ok a b message h =
    let (fits, e) = refuse_if-eq-ok (ltb (size_max - a) b) message (ok (a + b)) h in
    (cc, λ other. rw fits e)

moved-exactly : (t n : ℕ) → t ≤ n → moved (start_at t) n (some n) ≡ start_at n
moved-exactly t n le = let e : max t n ≡ n = omega arith in rw e refl

add_cursor-exactly :
    (t n : ℕ) (message : String) {m : ℕ}
    → add_checked t n message ≡ ok m
    → add_cursor (start_at t) (exactly n) ≡ ok (start_at m)
unfolding add_cursor
add_cursor-exactly t n message {m} h =
    let (e, again) = add_checked-eq-ok t n message h in
    rw
      (
        again "layout minimum overflow",
        again "layout maximum overflow",
        moved-exactly t m (omega arith),
      )
      refl

add_zero : (t : ℕ) → add_checked t 0 "" ≡ ok t
unfolding add_checked
add_zero t = ground arith

moved-start_at : (t : ℕ) → moved (start_at t) t (some t) ≡ start_at t
moved-start_at t = moved-exactly t t (omega arith)

align_up-exactly :
    (t a : ℕ) {m : ℕ}
    → (if t % a == 0 then ok t else add_checked t (a - t % a) "fixed layout overflow") ≡ ok m
    → (t ≤ m) × ((other : String) → align_up a t other ≡ ok m)
align_up-exactly t a {m} h = elim (Bool-cases (t % a == 0)) [
  | inl e ↦
      let h' : ok t ≡ ok m = rw e at h in let e' : t ≡ m = cc in (omega arith, λ other. rw e h')
  | inr e ↦
      let h' : add_checked t (a - t % a) "fixed layout overflow" ≡ ok m = rw e at h in
      let (sum, again) = add_checked-eq-ok t (a - t % a) "fixed layout overflow" h' in
      (omega arith, λ other. rw e (again other))
]

align_step-exactly :
    (F : Type 0) (rec : CoreType → Result ℕ) (t a : ℕ) (e : Expr) {m : ℕ}
    → fixed_op {F = F} rec t (align_op e (some a)) ≡ ok m
    → align_step (some a) (start_at t) ≡ ok (start_at m)
unfolding align_step fixed_op
align_step-exactly F rec t a e {m} h = elim (Bool-cases (a == 0)) [
  | inl z ↦ let h' : err "division by zero" ≡ ok m = rw z at h in cc
  | inr z ↦
      let (le, again) = align_up-exactly t a (rw z at h) in
      rw (z, again "layout minimum overflow", again "layout maximum overflow", moved-exactly t m le)
        refl
]

module _ {F : Type 0} (rec : CoreType → Result ℕ) (type_bounds : CoreType → Result LayoutBounds)
    (agree : (t : CoreType) (n : ℕ) → rec t ≡ ok n → type_bounds t ≡ ok (exactly n)) where
  sequence-step :
      (op : Op F) (rest : Ops F) (t : ℕ) {b : LayoutBounds} {m : ℕ} {r : Result SequenceBounds}
      → member_bounds type_bounds op ≡ ok b
      → add_cursor (start_at t) b ≡ ok (start_at m)
      → sequence_from type_bounds rest (start_at m) ≡ r
      → (member_bounds type_bounds op >>= λ b.
          add_cursor (start_at t) b >>= λ s. sequence_from type_bounds rest s)
        ≡ r
  sequence-step op rest t u v w = rw (u, v) w

  pub sequence_from-exactly :
      (ops : Ops F) (t : ℕ) {n : ℕ}
      → fixed_ops rec t ops ≡ ok n
      → sequence_from type_bounds ops (start_at t) ≡ ok (start_at n)
  unfolding fixed_ops fixed_op sequence_from member_bounds
  sequence_from-exactly no_ops t {n} h = let e : t ≡ n = cc in rw e refl
  sequence_from-exactly (cons_op null_op rest) t {n} h = cc
  sequence_from-exactly (cons_op (field_op f) rest) t {n} h =
      let (m, h', tail) = >>=-eq-ok (fixed_op rec t (field_op f)) (λ m. fixed_ops rec m rest) h in
      let (k, size, sum) =
        >>=-eq-ok (rec f.type) (λ k. add_checked t k "fixed layout overflow") h' in
      sequence-step (field_op f) rest t (agree f.type k size)
        (add_cursor-exactly t k "fixed layout overflow" sum) (sequence_from-exactly rest m tail)
  sequence_from-exactly (cons_op (virtual_op a b c) rest) t {n} h = cc
  sequence_from-exactly (cons_op (alias_op a b c d) rest) t {n} h =
      sequence-step (alias_op a b c d) rest t refl (add_cursor-exactly t 0 "" (add_zero t))
        (sequence_from-exactly rest t h)
  sequence_from-exactly (cons_op (bits_op a b k) rest) t {n} h =
      let (m, sum, tail) =
        >>=-eq-ok (add_checked t k "fixed layout overflow") (λ m. fixed_ops rec m rest) h in
      sequence-step (bits_op a b k) rest t refl (add_cursor-exactly t k "fixed layout overflow" sum)
        (sequence_from-exactly rest m tail)
  sequence_from-exactly (cons_op (variant_op a b c d e f) rest) t {n} h = cc
  sequence_from-exactly (cons_op (conditional_op a b c) rest) t {n} h = cc
  sequence_from-exactly (cons_op (block_op a b c d) rest) t {n} h = cc
  sequence_from-exactly (cons_op (at_op a b c) rest) t {n} h = cc
  sequence_from-exactly (cons_op (align_op e none) rest) t {n} h = cc
  sequence_from-exactly (cons_op (align_op e (some a)) rest) t {n} h =
      let (m, up, tail) =
        >>=-eq-ok (fixed_op {F = F} rec t (align_op e (some a))) (λ m. fixed_ops rec m rest) h in
      rw (align_step-exactly F rec t a e up) (sequence_from-exactly rest m tail)
  sequence_from-exactly (cons_op (callback_op a b c) rest) t {n} h = cc

kind_fixed :
    (k : DimensionKind)
    → not (is_fixed k) ≡ false
    → (is_remaining k ≡ false) × (is_dynamic k ≡ false)
kind_fixed DimensionKind.fixed h = (refl, refl)
kind_fixed DimensionKind.dynamic h = cc
kind_fixed DimensionKind.remaining h = cc

silent-eq-ok : (r : Result ℕ) {n : ℕ} → silent r ≡ ok n → r ≡ ok n
silent-eq-ok (ok m) h = h
silent-eq-ok (err e) h = cc

multiply_bounds-exactly :
    (a n : ℕ)
    → (not (a == 0) && ltb (size_max / a) n) ≡ false
    → multiply_bounds (exactly a) n ≡ ok (exactly (a * n))
unfolding multiply_bounds
multiply_bounds-exactly a n h = rw h refl

module _ {F L : Type 0} (c : CLibrary F L) where
  count-fixed :
      (d : Dimension) {n : ℕ}
      → is_dynamic d.kind ≡ false
      → is_remaining d.kind ≡ false
      → is_null d.expression ≡ false
      → evaluate_size_symbol c [] d.expression ≡ ok n
      → dimension_count c d ≡ ok (some n)
  unfolding dimension_count
  count-fixed d dy re nu ev = rw (dy, re, nu, ev) refl

  abbrev fixed_value : Dimension → Result ℕ
  fixed_value d = silent (evaluate_size_symbol c [] d.expression)

  abbrev fixed_rest : ℕ → List Dimension → ℕ → Result ℕ
  fixed_rest base ds n =
      refuse_if (not (base == 0) && ltb (size_max / base) n) "fixed type size overflow"
      >> fixed_dims c (base * n) ds

  pub dims_bounds-exactly :
      (ds : List Dimension) (base : ℕ) {n : ℕ}
      → fixed_dims c base ds ≡ ok n
      → dims_bounds c (exactly base) ds ≡ ok (exactly n)
  unfolding fixed_dims dims_bounds
  dims_bounds-exactly [] base {n} h = let e : base ≡ n = cc in rw e refl
  dims_bounds-exactly (d ∷ ds) base {n} h =
      let (kind, h1) =
        refuse_if-eq-ok (not (is_fixed d.kind)) ""
          (refuse_if (is_null d.expression) "" >> (fixed_value d >>= fixed_rest base ds)) h in
      let (node, h2) =
        refuse_if-eq-ok (is_null d.expression) "" (fixed_value d >>= fixed_rest base ds) h1 in
      let (k, value, h3) = >>=-eq-ok (fixed_value d) (fixed_rest base ds) h2 in
      let (fits, h4) =
        refuse_if-eq-ok (not (base == 0) && ltb (size_max / base) k) "fixed type size overflow"
          (fixed_dims c (base * k) ds) h3 in
      let (re, dy) = kind_fixed d.kind kind in
      let count : dimension_count c d ≡ ok (some k) =
        count-fixed d dy re node (silent-eq-ok (evaluate_size_symbol c [] d.expression) value) in
      rw (re, count, multiply_bounds-exactly base k fits) (dims_bounds-exactly ds (base * k) h4)
