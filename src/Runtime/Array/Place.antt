-- ===== src/Runtime/Array/Place.antt =====
-- runtime/Array.h: the elements of a valid view lie in its buffer, in row-major order.
use native.Mathlib.Nat.{mul-le-mul_right, mod-eq_of_lt, mul_comm, mul_assoc}
use embx.Prelude.{
  ℕ, ◌+◌, ◌-◌, ◌*◌, ◌/◌, ◌%◌, ◌≤◌, ◌<◌, ◌≡◌, refl, ap₂, ◌∙◌, arith, String, Bool, true, false, not,
  ◌&&◌, List, [], ◌∷◌, ltb, leb, ◌==◌,
}
use embx.Prelude.Div.{fits_product, product_fits, not_ltb}
use embx.Prelude.Result.{ok, ◌>>=◌, ◌>>◌, refuse_if, >>=-eq-ok, refuse_if-eq-ok}
use embx.Runtime.Host.{word, size_max}
use embx.Runtime.Array.{
  ArrayDescriptor, ArrayView, count_loop, descriptor_valid, view_valid, index_step, index_loop,
  rank, element_at,
}

abbrev pub product : List ℕ → ℕ
product [] = 1
product (d ∷ ds) = d * product ds

-- One index for each dimension, each below its extent.
abbrev pub IsWithin : List ℕ → List ℕ → Type 0
IsWithin [] [] = Unit
IsWithin (i ∷ is) (d ∷ ds) = (i < d) × IsWithin is ds
IsWithin [] (_ ∷ _) = ⊥
IsWithin (_ ∷ _) [] = ⊥

abbrev pub row_major : List ℕ → List ℕ → ℕ
row_major (i ∷ is) (d ∷ ds) = i * product ds + row_major is ds
row_major _ _ = 0

count_loop-product :
    (count : ℕ) (ds : List ℕ) (n : ℕ)
    → count ≤ size_max
    → count_loop count ds ≡ ok n
    → (n ≡ count * product ds) × (n ≤ size_max)
unfolding count_loop
count_loop-product count [] n b h = let same : count ≡ n = cc in (omega arith, rw same at b)
count_loop-product count (d ∷ ds) n b h =
    let (f, rest) = refuse_if-eq-ok _ _ (count_loop (count * d % word) ds) h in
    let small : count * d ≤ size_max = product_fits size_max count d b f in
    let whole : count * d % word ≡ count * d = mod-eq_of_lt (omega arith) in
    let (e, m) = count_loop-product (count * d) ds n small (rw whole at rest) in
    (e ∙ mul_assoc count d (product ds), m)

row_major-lt : (is ds : List ℕ) → IsWithin is ds → row_major is ds < product ds
row_major-lt [] [] w = omega arith
row_major-lt (i ∷ is) (d ∷ ds) (l, w) =
    let r = row_major-lt is ds w in
    let m : (i + 1) * product ds ≤ d * product ds = mul-le-mul_right (product ds) (omega arith) in
    omega (arith, m, r)
row_major-lt [] (_ ∷ _) w = absurd w
row_major-lt (_ ∷ _) [] w = absurd w

step-ok :
    (i d linear stride : ℕ)
    → i < d
    → linear < stride
    → stride * d ≤ size_max
    → index_step i d (linear, stride) ≡ ok (linear + i * stride, stride * d)
unfolding index_step
step-ok i d linear stride l b h =
    let m : (i + 1) * stride ≤ d * stride = mul-le-mul_right stride (omega arith) in
    let bound : stride * i ≤ size_max = omega (arith, m, mul_comm stride d) in
    let below : i * stride + linear ≤ size_max = omega (arith, m, mul_comm stride d) in
    let t1 : leb d i ≡ false = ground arith in
    let t3 : ltb (size_max - i * stride) linear ≡ false = not_ltb _ _ (omega arith) in
    rw (t1, fits_product size_max stride i bound, t3, fits_product size_max stride d h) refl

rank-eq : (is ds : List ℕ) → IsWithin is ds → (rank is == rank ds) ≡ true
rank-eq [] [] w = refl
rank-eq (i ∷ is) (d ∷ ds) (l, w) = let e = rank-eq is ds w in ground arith
rank-eq [] (_ ∷ _) w = absurd w
rank-eq (_ ∷ _) [] w = absurd w

loop-ok :
    (is ds : List ℕ)
    → IsWithin is ds
    → product ds ≤ size_max
    → index_loop is ds ≡ ok (row_major is ds, product ds)
unfolding index_loop
loop-ok [] [] w h = refl
loop-ok (i ∷ is) (d ∷ ds) (l, w) h =
    let r = row_major-lt is ds w in
    let m : 1 * product ds ≤ d * product ds = mul-le-mul_right (product ds) (omega arith) in
    let small : product ds ≤ size_max = omega (arith, m) in
    let swap : product ds * d ≡ d * product ds = mul_comm (product ds) d in
    let fits : product ds * d ≤ size_max = omega arith in
    rw (loop-ok is ds w small, step-ok i d (row_major is ds) (product ds) l r fits)
      (ap₂ (λ a b. ok (a, b)) (omega (arith, mul_comm (product ds) d)) swap)
loop-ok [] (_ ∷ _) w h = absurd w
loop-ok (_ ∷ _) [] w h = absurd w

passed : (b : Bool) (e : String) (u : Unit {0}) → refuse_if b e ≡ ok u → b ≡ false
passed true e u h = cc
passed false e u h = refl

pub descriptor-facts :
    (d : ArrayDescriptor) (u : Unit {0})
    → descriptor_valid d ≡ ok u
    → (d.element_count ≡ product d.dimensions)
      × (product d.dimensions ≤ size_max)
      × (0 < d.element_size)
unfolding descriptor_valid
descriptor-facts d u h =
    let (nonzero, rest) =
      refuse_if-eq-ok _ _
        (count_loop 1 d.dimensions >>= λ count.
          refuse_if (not (count == d.element_count))
            "array element count does not match dimensions")
        h in
    let (count, counted, test) = >>=-eq-ok (count_loop 1 d.dimensions) _ rest in
    let (e, m) = count_loop-product 1 d.dimensions count (omega arith) counted in
    let same = passed (not (count == d.element_count)) _ u test in
    let eq : count ≡ d.element_count = ground arith in
    (omega (arith, eq, e), omega (arith, e, m), ground arith)

all_passed :
    (b₁ b₂ b₃ b₄ : Bool) (e₁ e₂ e₃ e₄ : String) (u : Unit {0})
    → (refuse_if b₁ e₁ >> refuse_if b₂ e₂ >> refuse_if b₃ e₃ >> refuse_if b₄ e₄) ≡ ok u
    → (b₂ ≡ false) × (b₄ ≡ false)
all_passed true b₂ b₃ b₄ e₁ e₂ e₃ e₄ u h = cc
all_passed false true b₃ b₄ e₁ e₂ e₃ e₄ u h = cc
all_passed false false true b₄ e₁ e₂ e₃ e₄ u h = cc
all_passed false false false true e₁ e₂ e₃ e₄ u h = cc
all_passed false false false false e₁ e₂ e₃ e₄ u h = (refl, refl)

-- What `ArrayView::valid` establishes of a view that has elements.
valid-facts :
    (v : ArrayView)
    → view_valid v ≡ ok tt
    → 0 < product v.descriptor.dimensions
    → (v.descriptor.element_count ≡ product v.descriptor.dimensions)
      × (product v.descriptor.dimensions ≤ size_max)
      × (0 < v.descriptor.element_size)
      × (v.buffer.size ≡ v.descriptor.element_count * v.descriptor.element_size)
      × (v.descriptor.element_count * v.descriptor.element_size ≤ size_max)
unfolding view_valid
valid-facts v h pos =
    let (u, hd, rest) = >>=-eq-ok (descriptor_valid v.descriptor) _ h in
    let (e, m, s) = descriptor-facts v.descriptor u hd in
    let some_elements : (v.descriptor.element_count == 0) ≡ false = ground arith in
    let big = rw some_elements at rest in
    let (fits, whole) = all_passed _ _ _ _ _ _ _ _ tt big in
    let test : (not (v.descriptor.element_size == 0)
          && ltb (size_max / v.descriptor.element_size) v.descriptor.element_count)
        ≡ false =
      ground arith in
    let count_small : v.descriptor.element_count ≤ size_max = omega (arith, e, m) in
    let small =
      product_fits size_max v.descriptor.element_count v.descriptor.element_size count_small test in
    let exact : v.descriptor.element_count * v.descriptor.element_size % word
        ≡ v.descriptor.element_count * v.descriptor.element_size =
      mod-eq_of_lt (omega (arith, small)) in
    let size : v.buffer.size ≡ v.descriptor.element_count * v.descriptor.element_size % word =
      ground arith in
    (e, m, s, size ∙ exact, small)

-- In a valid view, indices within the dimensions give the offset of their row-major place, and the
-- element that starts there ends inside the buffer: none of the overflow tests fails.
pub element_at-place :
    (is : List ℕ) (v : ArrayView)
    → view_valid v ≡ ok tt
    → IsWithin is v.descriptor.dimensions
    → (element_at is v ≡ ok (row_major is v.descriptor.dimensions * v.descriptor.element_size))
      × (row_major is v.descriptor.dimensions * v.descriptor.element_size
            + v.descriptor.element_size
          ≤ v.buffer.size)
unfolding element_at
element_at-place is v h w =
    let ds = v.descriptor.dimensions in
    let size = v.descriptor.element_size in
    let r : row_major is ds < product ds = row_major-lt is ds w in
    let (e, m, s, b, small) = valid-facts v h (omega (arith, r)) in
    let ends : (row_major is ds + 1) * size ≤ v.descriptor.element_count * size =
      mul-le-mul_right size (omega (arith, r, e)) in
    let fits : row_major is ds * size ≤ size_max = omega (arith, ends, small) in
    let t1 : leb v.descriptor.element_count (row_major is ds) ≡ false = ground arith in
    let t3 : ltb size_max (row_major is ds * size) ≡ false = not_ltb _ _ (omega arith) in
    (
      rw
          (
            h,
            rank-eq is ds w,
            loop-ok is ds w m,
            t1,
            fits_product size_max (row_major is ds) size fits,
            t3,
          )
          refl,
      omega (arith, ends, b),
    )
