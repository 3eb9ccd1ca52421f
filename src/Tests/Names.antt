-- ===== src/Tests/Names.antt =====
-- core/Symbol.h, core/Resolver.h, core/Expr.h and diagnostics/Diagnostic.cpp at concrete inputs.
use embx.Prelude.{◌≡◌, ◌≢◌, refl, ◌⊎◌, String, true, false, some, [], ◌∷◌}
use embx.Prelude.Map.{contains, text_key}
use embx.Core.Symbol.{
  SymbolKind, Scope, root, child, SymbolTable, invalid_symbol_id, declare, declare_in, resolve_in,
}
use embx.Core.Symbol.Laws.{Declared, declare_cases, resolve-declare_in}
use embx.Core.Resolver.{
  NameResolver, Agrees, resolve_detailed, resolve_qualified, resolve_kind, KindResult,
  resolve-Agrees,
}
use embx.Diagnostics.{Code, classify}
use embx.Diagnostics.Direction.{is_reported, classify-reported}

abbrev one_struct : SymbolTable
one_struct = record {
  symbols = record { id = 1; kind = SymbolKind.struct; name = "Header" } ∷ [];
  by_name = ("Header", 1) ∷ [];
}

declare_cases_example :
    (((◌≡◌ {A = String} "Header" "" ⊎ (contains "Header" one_struct.by_name ≡ true))
        × (declare SymbolKind.enum "Header" one_struct ≡ (one_struct, invalid_symbol_id)))
      ⊎ ((◌≢◌ {A = String} "Header" "")
          × (contains "Header" one_struct.by_name ≡ false)
          × Declared SymbolKind.enum "Header" one_struct
              (declare SymbolKind.enum "Header" one_struct)))
declare_cases_example = declare_cases SymbolKind.enum "Header" one_struct

-- A name of the inner scope hides the outer one.
abbrev scope : Scope
scope = child (root (("len", 4) ∷ [])) []

resolve-declare_in_example : resolve_in "len" (declare_in "len" 7 scope).0 ≡ 7
resolve-declare_in_example =
    resolve-declare_in "len" "len" 7 scope (unfold declare_in contains in refl)

abbrev names : NameResolver
names = record { symbols = one_struct; scope = some scope }

resolve-Agrees_example :
    Agrees (resolve_detailed "Header" names)
    × Agrees (resolve_qualified "Header" names)
    × Agrees (resolve_kind "Header" SymbolKind.struct names)
    × KindResult SymbolKind.struct names
        (resolve_detailed "Header" names)
        (resolve_kind "Header" SymbolKind.struct names)
resolve-Agrees_example = resolve-Agrees "Header" SymbolKind.struct names

classify-reported_example : is_reported false (classify "read beyond input" false) ≡ true
classify-reported_example = classify-reported "read beyond input" false

truncated : classify "read beyond input" false ≡ Code.input_truncated
unfolding classify
truncated = refl
