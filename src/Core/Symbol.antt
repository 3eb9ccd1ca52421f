-- ===== src/Core/Symbol.antt =====
-- core/Symbol.h: symbol identities, scopes and the symbol table.
pub mod Laws
use embx.Prelude.{
  ℕ, suc, ◌+◌, ◌-◌, ◌^◌, String, Bool, true, false, ◌||◌, Option, none, some, List, [], ◌∷◌, ◌++◌,
  ltb, ◌==◌, str_eq, if◌then◌else◌, length, get_elem?,
}
use embx.Prelude.Map.{lookup, contains, emplace, text_key}

abbrev pub SymbolId : Type 0
SymbolId = ℕ

abbrev pub invalid_symbol_id : SymbolId
invalid_symbol_id = 0

-- Built-in identities; they are not declared in a table.
abbrev pub builtin_next_symbol_id : SymbolId
builtin_next_symbol_id = 2 ^ 64 - 1

abbrev pub builtin_size_in_bytes_symbol_id : SymbolId
builtin_size_in_bytes_symbol_id = builtin_next_symbol_id - 1

abbrev pub builtin_min_size_in_bytes_symbol_id : SymbolId
builtin_min_size_in_bytes_symbol_id = builtin_next_symbol_id - 2

abbrev pub builtin_max_size_in_bytes_symbol_id : SymbolId
builtin_max_size_in_bytes_symbol_id = builtin_next_symbol_id - 3

pub data SymbolKind : Type 0 where
  type_alias struct enum constant callback parameter enum_item attribute_definition : SymbolKind
  field virtual_field alias_field : SymbolKind

-- `SymbolRef`
abbrev pub valid : SymbolId → Bool
valid id = if id == invalid_symbol_id then false else true

pub record Symbol : Type 0 where
  pub id : SymbolId
  pub kind : SymbolKind
  pub name : String

abbrev pub Bindings : Type 0
Bindings = List (String × SymbolId)

-- `class Scope`: bindings, and a parent or none.
pub data Scope : Type 0 where
  root : Bindings → Scope
  child : Scope → Bindings → Scope

abbrev pub bindings : Scope → Bindings
bindings (root b) = b
bindings (child parent b) = b

abbrev pub with_bindings : Scope → Bindings → Scope
with_bindings (root b) new = root new
with_bindings (child parent b) new = child parent new

-- The scope after the call, and whether the name was declared.
unfoldable pub declare_in : String → SymbolId → Scope → Scope × Bool
declare_in name id s =
    if str_eq name "" || id == invalid_symbol_id || contains name (bindings s)
    then (s, false)
    else (with_bindings s (emplace name id (bindings s)), true)

bound_or : Option SymbolId → SymbolId → SymbolId
bound_or (some id) outer = id
bound_or none outer = outer

unfoldable pub resolve_in : String → Scope → SymbolId
unfolding bound_or
resolve_in name (root b) = bound_or (lookup name b) invalid_symbol_id
resolve_in name (child parent b) = bound_or (lookup name b) (resolve_in name parent)

-- `class SymbolTable`
pub record SymbolTable : Type 0 where
  pub symbols : List Symbol
  pub by_name : Bindings

abbrev pub empty_table : SymbolTable
empty_table = record { symbols = []; by_name = [] }

unfoldable pub append : SymbolKind → String → Bool → SymbolTable → SymbolTable × SymbolId
append kind name index_by_name t =
    let id = length t.symbols + 1 in
    (
      record {
        symbols = t.symbols ++ (record { id = id; kind = kind; name = name } ∷ []);
        by_name = if index_by_name then emplace name id t.by_name else t.by_name;
      },
      id,
    )

unfoldable pub declare : SymbolKind → String → SymbolTable → SymbolTable × SymbolId
declare kind name t =
    if str_eq name "" || contains name t.by_name
    then (t, invalid_symbol_id)
    else append kind name true t

unfoldable pub declare_scoped : SymbolKind → String → SymbolTable → SymbolTable × SymbolId
declare_scoped kind name t =
    if str_eq name "" then (t, invalid_symbol_id) else append kind name false t

unfoldable pub find : SymbolId → SymbolTable → Option Symbol
find id t =
    if id == invalid_symbol_id || ltb (length t.symbols) id
    then none
    else get_elem? t.symbols (id - 1)

unfoldable pub find_id : String → SymbolTable → SymbolId
unfolding bound_or
find_id name t = bound_or (lookup name t.by_name) invalid_symbol_id
