-- ===== src/Plan/Layout/Moved.antt =====
-- plan/PlanBuilder.cpp: the steps of `computeStructLayout` that move the offset.
use native.Mathlib.Nat.{div-add-mod, mod-lt, add-mod_right, mul-mod_right}
use embx.Prelude.{
  ℕ, ◌+◌, ◌-◌, ◌*◌, ◌/◌, ◌%◌, ◌≤◌, ◌<◌, ◌≡◌, refl, ap, ◌∙◌, arith, String, ◌+s◌, true, false, not,
  Option, none, some, ◌==◌, if◌then◌else◌,
}
use embx.Prelude.Result.{Result, ok, err, Yields, >>=-Yields, if-Yields}
use embx.Plan.Model.{Field}
use embx.Plan.Sizes.{add_checked}
use embx.Plan.Bounds.Order.{add_checked-Yields}
use embx.Plan.Layout.Place.{AlignedTo}
use embx.Plan.Layout.{
  LayoutState, unknown, advanced, advance, offset_field, align_layout, block_layout, known_size,
}

-- The offsets are still known after the step, so they were before it.
abbrev pub Moved : (ℕ → Type 0) → LayoutState → LayoutState → Type 0
Moved At s s' =
    s'.known ≡ true
    → (s.known ≡ true) × (s'.offset ≤ s'.max_end) × (s.max_end ≤ s'.max_end) × At s'.offset

pub advance-Moved :
    (At : ℕ → Type 0) (name : String) (s : LayoutState) (n : ℕ)
    → (s.known ≡ true → At (s.offset + n))
    → Yields (Moved At s) (advance name s n)
advance-Moved At name s n at =
    >>=-Yields (λ m. m ≡ s.offset + n) (Moved At s)
      (add_checked s.offset n ("struct layout overflow: " +s name)) (λ next. ok (advanced s next))
      (add_checked-Yields s.offset n _)
      (λ m e known. (known, omega arith, omega arith, rw e (at known)))

pub offset_field-known :
    {F : Type 0} (f : Field F) (s : LayoutState)
    → s.known ≡ true
    → (offset_field f s).static_offset ≡ some s.offset
offset_field-known f s known = rw known refl

pub offset_field-type :
    {F : Type 0} (f : Field F) (s : LayoutState) → (offset_field f s).type ≡ f.type
offset_field-type f s = ground arith

pub known_size-eq-ok : (r : Result ℕ) {n : ℕ} → known_size r ≡ some n → r ≡ ok n
unfolding known_size
known_size-eq-ok (ok m) {n} h = let same : m ≡ n = cc in ap ok same
known_size-eq-ok (err e) {n} h = cc

-- What is added to a cursor that is not aligned brings it to the next multiple.
round_up-AlignedTo :
    (a x : ℕ) → 0 < a → (x % a == 0) ≡ false → AlignedTo (some a) x (x + (a - x % a))
round_up-AlignedTo a x pos off =
    let less = mod-lt x pos in
    let whole = div-add-mod x a in
    let e : x + (a - x % a) ≡ a * (x / a) + a = omega arith in
    let multiple : (x + (a - x % a)) % a ≡ 0 =
      ap (λ k. k % a) e ∙ add-mod_right (a * (x / a)) a ∙ mul-mod_right a (x / a) in
    (a, refl, multiple, omega arith, let some_rest : 0 < x % a = ground arith in omega arith)

pub align_layout-Moved :
    (name : String) (o : Option ℕ) (s : LayoutState)
    → (s.known ≡ true → s.offset ≤ s.max_end)
    → Yields (Moved (AlignedTo o s.offset) s) (align_layout name o s)
align_layout-Moved name none s le = λ known. cc
align_layout-Moved name (some a) s le =
    let At : LayoutState → Type 0 = Moved (AlignedTo (some a) s.offset) s in
    let moved = advance name s (a - s.offset % a) in
    let kept : Result LayoutState = ok (advanced s s.offset) in
    if-Yields At (not s.known) (ok (unknown s))
      (if a == 0 then err "division by zero" else if s.offset % a == 0 then kept else moved)
      (λ k known. cc)
      (λ k.
        if-Yields At (a == 0) (err "division by zero") (if s.offset % a == 0 then kept else moved)
          (λ z. tt)
          (λ z.
            let pos : 0 < a = ground arith in
            if-Yields At (s.offset % a == 0) kept moved
              (λ r known.
                let l = le known in
                let multiple : s.offset % a ≡ 0 = ground arith in
                (known, omega arith, omega arith, (a, refl, multiple, omega arith, omega arith)))
              (λ r.
                advance-Moved (AlignedTo (some a) s.offset) name s (a - s.offset % a)
                  (λ known. round_up-AlignedTo a s.offset pos r))))

pub block_layout-Moved :
    (name : String) (o : Option ℕ) (s : LayoutState)
    → Yields (Moved (λ to. (n : ℕ) × (o ≡ some n) × (to ≡ s.offset + n)) s) (block_layout name o s)
block_layout-Moved name none s = λ known. cc
block_layout-Moved name (some n) s =
    let At : ℕ → Type 0 = λ to. (m : ℕ) × (some n ≡ some m) × (to ≡ s.offset + m) in
    if-Yields (Moved At s) s.known (advance name s n) (ok (unknown s))
      (λ k. advance-Moved At name s n (λ known. (n, refl, refl))) (λ k known. cc)
