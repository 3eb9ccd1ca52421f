-- ===== src/Prelude/Div.antt =====
-- The overflow test `n > max / k` that stands before a product.
use native.Mathlib.Nat.{div-lt_iff_lt-mul}
use embx.Prelude.{
  ℕ, zero, suc, ◌*◌, ◌/◌, ◌≤◌, ◌<◌, ◌≡◌, ◌↔◌, arith, false, not, ◌&&◌, ltb, ltb→lt, lt→ltb, ◌==◌,
  Bool-cases, inl, inr,
}

pub not_ltb : (a b : ℕ) → (¬ a < b) → ltb a b ≡ false
not_ltb a b h = ground arith

pub ltb-false : (a b : ℕ) → ltb a b ≡ false → ¬ a < b
ltb-false a b h = ground arith

pub ltb-div : (x k y : ℕ) → ltb (x / suc k) y ≡ ltb x (y * suc k)
ltb-div x k y =
    let e : (x / suc k < y) ↔ (x < y * suc k) =
      div-lt_iff_lt-mul {k = suc k} {x = x} {y = y} (omega arith) in
    elim (Bool-cases (ltb x (y * suc k))) [
      | inl t ↦ rw t (lt→ltb _ _ (e.1 (ltb→lt _ _ t)))
      | inr f ↦ rw f (not_ltb _ _ (λ l. ltb-false _ _ f (e.0 l)))
    ]

suc_test : (k : ℕ) → (suc k == 0) ≡ false
suc_test k = ground arith

pub fits_product : (max n k : ℕ) → n * k ≤ max → (not (k == 0) && ltb (max / k) n) ≡ false
fits_product max n zero h = ground arith
fits_product max n (suc k) h = rw (suc_test k, ltb-div max k n) (not_ltb _ _ (λ l. omega arith))

pub product_fits : (max n k : ℕ) → n ≤ max → (not (k == 0) && ltb (max / k) n) ≡ false → n * k ≤ max
product_fits max n zero b h = omega arith
product_fits max n (suc k) b h =
    let small : ltb (max / suc k) n ≡ false = rw (suc_test k) at h in
    let whole : ltb max (n * suc k) ≡ false = rw (ltb-div max k n) at small in ground arith
