-- ===== src/Prelude/Bits.antt =====
-- `|` of disjoint bit ranges is a sum and `&` with a mask of low ones is a remainder, at every width.
use Prim.Native.Nat.{digits, bitwise, bit_and-bitwise, bit_or-bitwise}
use mathlib.Core.WellFounded
use mathlib.Core.WellFounded.{Acc}
use native.Mathlib.Nat.{le_refl, pow-suc, one-le-pow, div-div-eq-div-mul, div-add-mod}
use embx.Prelude.{
  ℕ, zero, suc, ◌+◌, ◌-◌, ◌*◌, ◌/◌, ◌%◌, ◌^◌, ◌≤◌, ◌<◌, min, max, bit_and, bit_or, ◌≡◌, refl, sym,
  ap, ◌∙◌, arith,
}

Acc-below : (k n : ℕ) → n < k → Acc ◌<◌ n
Acc-below zero n h = elim h [ ]
Acc-below (suc k) n h = Acc.intro n (λ m hm. Acc-below k m (omega arith))

unfoldable pub lt_wf : WellFounded.WellFounded ◌<◌
unfolding Acc-below
lt_wf = record { apply = λ n. Acc-below (suc n) n (omega arith) }

module _ (rest : ℕ → ℕ) (digit : ℕ → ℕ → ℕ) where
  -- More fuel than the first number needs changes nothing.
  digits_enough :
      (fuel more x y : ℕ)
      → x ≤ fuel
      → x ≤ more
      → digits rest digit more x y ≡ digits rest digit fuel x y
  digits_enough zero zero x y p q = refl
  digits_enough (suc fuel) zero zero y p q = refl
  digits_enough zero (suc more) zero y p q = refl
  digits_enough (suc fuel) (suc more) zero y p q = refl
  digits_enough (suc fuel) (suc more) (suc x) y p q =
      rw (digits_enough fuel more (suc x / 2) (y / 2) (omega arith) (omega arith))
  digits_enough _ _ (suc x) y p q = absurd (omega arith)

  lowest_digit :
      (x y : ℕ)
      → digit (suc x % 2) (y % 2) + 2 * bitwise rest digit (suc x / 2) (y / 2)
        ≡ bitwise rest digit (suc x) y
  lowest_digit x y =
      let enough = digits_enough (suc x / 2) x (suc x / 2) (y / 2) (le_refl _) (omega arith) in
      omega (arith, enough)

or_halves : (x y : ℕ) → max (x % 2) (y % 2) + 2 * bit_or (x / 2) (y / 2) ≡ bit_or x y
or_halves zero y = simp bit_or-bitwise (omega arith)
or_halves (suc x) y = simp bit_or-bitwise (lowest_digit (λ t. t) max x y)

and_halves : (x y : ℕ) → min (x % 2) (y % 2) + 2 * bit_and (x / 2) (y / 2) ≡ bit_and x y
and_halves zero y = simp bit_and-bitwise (omega arith)
and_halves (suc x) y = simp bit_and-bitwise (lowest_digit (λ t. 0) min x y)

or_zero : (a : ℕ) → bit_or a 0 ≡ a
or_zero a = WellFounded.induction lt_wf {C = λ n. bit_or n 0 ≡ n} a λ n ih.
    elim (n) as (λ k. ((m : ℕ) → m < k → bit_or m 0 ≡ m) → bit_or k 0 ≡ k) [
      | zero ↦ λ h. refl
      | suc k ↦ λ h. omega (arith, or_halves (suc k) 0, h (suc k / 2) (omega arith))
    ]
      ih

zero_or : (a : ℕ) → bit_or 0 a ≡ a
zero_or a = bit_or-bitwise 0 a

and_zero : (a : ℕ) → bit_and a 0 ≡ 0
and_zero a = WellFounded.induction lt_wf {C = λ n. bit_and n 0 ≡ 0} a λ n ih.
    elim (n) as (λ k. ((m : ℕ) → m < k → bit_and m 0 ≡ 0) → bit_and k 0 ≡ 0) [
      | zero ↦ λ h. refl
      | suc k ↦ λ h. omega (arith, and_halves (suc k) 0, h (suc k / 2) (omega arith))
    ]
      ih

pub pow-suc_two : (k : ℕ) → 2 ^ suc k ≡ 2 * 2 ^ k
pow-suc_two k = omega (arith, pow-suc 2 k)

pub mul-pow-suc : (q k : ℕ) → q * 2 ^ suc k ≡ 2 * (q * 2 ^ k)
mul-pow-suc q k = omega (arith, ap (λ (t : ℕ). q * t) (pow-suc 2 k))

pub one-le-two_pow : (k : ℕ) → 1 ≤ 2 ^ k
one-le-two_pow k = one-le-pow k 2 (omega arith)

-- `(q << k) | r`, with `r` below the shifted bits.
pub high_or_low : (k q r : ℕ) → r < 2 ^ k → bit_or (q * 2 ^ k) r ≡ q * 2 ^ k + r
high_or_low zero q r h = ground (arith, or_zero q)
high_or_low (suc k) q r h = ground (
  arith,
  or_halves (q * 2 ^ suc k) r,
  mul-pow-suc q k,
  pow-suc_two k,
  high_or_low k q (r / 2) (omega (arith, pow-suc_two k)),
)

-- `r | (q << k)`.
pub low_or_high : (k q r : ℕ) → r < 2 ^ k → bit_or r (q * 2 ^ k) ≡ q * 2 ^ k + r
low_or_high zero q r h = ground (arith, zero_or q)
low_or_high (suc k) q r h = ground (
  arith,
  or_halves r (q * 2 ^ suc k),
  mul-pow-suc q k,
  pow-suc_two k,
  low_or_high k q (r / 2) (omega (arith, pow-suc_two k)),
)

and_mask_fields : (k q r : ℕ) → r < 2 ^ k → bit_and (q * 2 ^ k + r) (2 ^ k - 1) ≡ r
and_mask_fields zero q r h = rw and_zero (omega arith)
and_mask_fields (suc k) q r h = ground (
  arith,
  and_halves (q * 2 ^ suc k + r) (2 ^ suc k - 1),
  mul-pow-suc q k,
  pow-suc_two k,
  one-le-two_pow k,
  and_mask_fields k q (r / 2) (omega (arith, pow-suc_two k)),
)

-- `a & ((1 << k) - 1)`.
pub and_mask : (k a : ℕ) → bit_and a (2 ^ k - 1) ≡ a % 2 ^ k
and_mask k a = ground (arith, one-le-two_pow k, and_mask_fields k (a / 2 ^ k) (a % 2 ^ k))

add-suc_pow : (a b : ℕ) → 2 ^ (suc a + b) ≡ 2 ^ suc (a + b)
add-suc_pow a b = let e : suc a + b ≡ suc (a + b) = omega arith in rw e

pub pow_add : (a b : ℕ) → 2 ^ (a + b) ≡ 2 ^ a * 2 ^ b
pow_add zero b = let e : 0 + b ≡ b = omega arith in rw e (omega arith)
pow_add (suc a) b = omega (
  arith,
  pow-suc_two a,
  pow-suc_two (a + b),
  ap (λ (t : ℕ). t * 2 ^ b) (pow-suc_two a),
  pow_add a b,
  add-suc_pow a b,
)

pub pow_le : (a b : ℕ) → a ≤ b → 2 ^ a ≤ 2 ^ b
pow_le a b h =
    let e : b ≡ a + (b - a) = omega arith in
    let p : 2 ^ b ≡ 2 ^ a * 2 ^ (b - a) = rw (← pow_add a (b - a), ← e) refl in
    grind (arith, p, one-le-two_pow (b - a), one-le-two_pow a)

-- `a & (1 << k)`.
pub and_bit : (k a : ℕ) → bit_and a (2 ^ k) ≡ a / 2 ^ k % 2 * 2 ^ k
and_bit zero a = omega (arith, and_halves a 1, and_zero (a / 2))
and_bit (suc k) a =
    let halved : 2 ^ suc k / 2 ≡ 2 ^ k = omega (arith, pow-suc_two k) in
    let bit : a / 2 / 2 ^ k ≡ a / 2 ^ suc k =
      div-div-eq-div-mul a 2 (2 ^ k) ∙ ap (λ (t : ℕ). a / t) (sym (pow-suc_two k)) in
    let half_bit : bit_and (a / 2) (2 ^ suc k / 2) ≡ a / 2 ^ suc k % 2 * 2 ^ k =
      rw (halved, and_bit k (a / 2), bit) refl in
    omega
      (arith, and_halves a (2 ^ suc k), half_bit, mul-pow-suc (a / 2 ^ suc k % 2) k, pow-suc_two k)

-- The remainder by a product, from the remainders by the factors.
pub mod-mul : (v a b : ℕ) → v % (a * b) ≡ v / a % b * a + v % a
mod-mul v a b =
    let q : v / a / b ≡ v / (a * b) = div-div-eq-div-mul v a b in
    let whole : a * b * (v / a / b) + v % (a * b) ≡ v = rw q (div-add-mod v (a * b)) in
    omega (arith, whole, div-add-mod v a, ap (λ (t : ℕ). a * t) (div-add-mod (v / a) b))
