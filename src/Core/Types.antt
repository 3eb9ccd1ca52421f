-- ===== src/Core/Types.antt =====
-- core/Type.h: dimensions and types. A copy of a type copies its expressions, so it is equal to it.
use embx.Prelude.{ℕ, String, Bool, true, false, Option, List}
use embx.Core.Symbol.{SymbolId}
use embx.Core.Expr.{Expr}

pub data TypeKind : Type 0 where
  primitive bytes string named : TypeKind

pub data DimensionKind : Type 0 where
  fixed dynamic remaining : DimensionKind

pub record Dimension : Type 0 where
  pub kind : DimensionKind
  pub expression : Expr

-- `core::Type`
pub record CoreType : Type 0 where
  pub kind : TypeKind
  pub name : String
  pub reference : SymbolId
  pub dimensions : List Dimension
  pub terminator : List ℕ
  pub max_payload : Option ℕ

abbrev pub is_remaining : DimensionKind → Bool
is_remaining DimensionKind.remaining = true
is_remaining _ = false
