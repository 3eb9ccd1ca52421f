-- ===== src/Plan/Model.antt =====
-- plan/Plan.h: the plan that the decoder and the encoder run. `F` stands for `double`. Documentation
-- texts and attributes, which no phase after the builder reads, are left out. The index maps hold
-- the place of each symbol's entry in the module's lists.
use embx.Prelude.{ℕ, String, Bool, true, false, Option, none, some, List, ◌==◌}
use embx.Core.Symbol.{SymbolId, SymbolTable}
use embx.Core.Expr.{Expr}
use embx.Core.Types.{CoreType}
use embx.Core.Resolver.{CallbackDirection}
use embx.Runtime.Host.{Endian}
use embx.Runtime.Evaluator.{Value}

pub record Transform (F : Type 0) : Type 0 where
  pub name : String
  pub factor : F

pub record Field (F : Type 0) : Type 0 where
  pub symbol : SymbolId
  pub name : String
  pub type : CoreType
  pub endian : Endian
  pub static_length : Option ℕ
  pub static_offset : Option ℕ
  pub static_size : Option ℕ
  pub bits : ℕ
  pub assertion : String
  pub transform : Option (Transform F)

pub record BitsField : Type 0 where
  pub symbol : SymbolId
  pub name : String
  pub type : CoreType
  pub endian : Endian
  pub bits : ℕ
  pub assertion : String

-- `Op*`, a vector of them and a vector of variant cases. `null_op` is the null pointer.
mutual
  pub data Op (F : Type 0) : Type 0 where
    null_op : Op F
    field_op : Field F → Op F
    -- symbol, name, expression
    virtual_op : SymbolId → String → Expr → Op F
    -- symbol, name, target, target's name
    alias_op : SymbolId → String → SymbolId → String → Op F
    -- fields, total bits, storage bytes
    bits_op : List BitsField → ℕ → ℕ → Op F
    -- name, discriminator, cases, whether there is a default, its type and its members
    variant_op : String → Expr → Cases F → Bool → Option CoreType → Ops F → Op F
    -- condition, then and else
    conditional_op : Expr → Ops F → Ops F → Op F
    -- name, size, static size, members
    block_op : String → Expr → Option ℕ → Ops F → Op F
    -- offset, static offset, members
    at_op : Expr → Option ℕ → Ops F → Op F
    -- alignment, static alignment
    align_op : Expr → Option ℕ → Op F
    -- name, direction, arguments
    callback_op : String → CallbackDirection → List Expr → Op F

  pub data Ops (F : Type 0) : Type 0 where
    no_ops : Ops F
    cons_op : Op F → Ops F → Ops F

  pub data Cases (F : Type 0) : Type 0 where
    no_cases : Cases F
    -- tag, type, members
    cons_case : Value F → Option CoreType → Ops F → Cases F → Cases F

pub record Struct (F : Type 0) : Type 0 where
  pub symbol : SymbolId
  pub name : String
  pub endian : Endian
  pub requirements : List Expr
  pub members : Ops F
  pub static_size : Option ℕ
  pub min_size_in_bytes : ℕ
  pub size_in_bytes : Option ℕ
  pub max_size_in_bytes : Option ℕ

pub record Constant (F : Type 0) : Type 0 where
  pub symbol : SymbolId
  pub name : String
  pub value : Value F
  pub computed : Bool

pub record Alias : Type 0 where
  pub symbol : SymbolId
  pub name : String
  pub target : CoreType

pub record EnumItem (F : Type 0) : Type 0 where
  pub symbol : SymbolId
  pub name : String
  pub value : Value F

pub record Enum (F : Type 0) : Type 0 where
  pub symbol : SymbolId
  pub name : String
  pub underlying : CoreType
  pub items : List (EnumItem F)

pub record Parameter : Type 0 where
  pub symbol : SymbolId
  pub name : String
  pub type : CoreType

pub record Plan (F : Type 0) : Type 0 where
  pub endian : Endian
  pub aliases : List Alias
  pub structs : List (Struct F)
  pub enums : List (Enum F)
  pub constants : List (Constant F)
  pub parameters : List Parameter
  pub symbol_table : SymbolTable
  pub struct_index_by_symbol : List (SymbolId × ℕ)
  pub alias_index_by_symbol : List (SymbolId × ℕ)
  pub enum_index_by_symbol : List (SymbolId × ℕ)

pub data LayoutClass : Type 0 where
  exact bounded unbounded : LayoutClass

pub record LayoutBounds : Type 0 where
  pub min_size : ℕ
  pub max_size : Option ℕ

abbrev classify_max : ℕ → Option ℕ → LayoutClass
classify_max min none = LayoutClass.unbounded
classify_max min (some max) = elim (max == min) [
  | true ↦ LayoutClass.exact
  | false ↦ LayoutClass.bounded
]

unfoldable pub classification : LayoutBounds → LayoutClass
classification b = classify_max b.min_size b.max_size

abbrev pub exact_max : ℕ → Option ℕ → Bool
exact_max min none = false
exact_max min (some max) = max == min

unfoldable pub is_exact : LayoutBounds → Bool
is_exact b = exact_max b.min_size b.max_size

abbrev some_max : Option ℕ → Bool
some_max none = false
some_max (some max) = true

unfoldable pub is_bounded : LayoutBounds → Bool
is_bounded b = some_max b.max_size
