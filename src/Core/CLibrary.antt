-- ===== src/Core/CLibrary.antt =====
-- The C and C++ library that core/Expr.h and runtime/ExpressionEvaluator.cpp call: number parsing
-- and floating-point arithmetic. `F` stands for `double` and `L` for `long double`.
use embx.Prelude.{ℕ, String, Bool, Option}
use embx.Prelude.Int.{ℤ}

-- What a parse of the start of a text leaves: its value and the number of bytes it took.
pub record Parsed {ℓ} (A : Type ℓ) : Type ℓ where
  pub value : A
  pub index : ℕ

pub record CLibrary (F L : Type 0) : Type 0 where
  -- `std::strtod`, `none` where it sets `errno` to `ERANGE`.
  pub strtod : String → Option (Parsed F)
  -- `std::stoull` in a base, `none` where it throws.
  pub stoull : String → ℕ → Option (Parsed ℕ)
  -- `std::isfinite`
  pub is_finite : F → Bool
  pub negate : F → F
  -- The conversions to `long double` and back.
  pub widen : F → L
  pub of_int : ℤ → L
  pub narrow : L → F
  -- The operators of `long double`.
  pub add : L → L → L
  pub sub : L → L → L
  pub mul : L → L → L
  pub div : L → L → L
  pub eq : L → L → Bool
  pub lt : L → L → Bool
  pub le : L → L → Bool
