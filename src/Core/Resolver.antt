-- ===== src/Core/Resolver.antt =====
-- core/Resolver.h: `class NameResolver`, and core/Semantic.h: the callback directions.
use text.Mathlib.Text.{starts_with}
use embx.Prelude.{
  ◌≡◌, ◌≢◌, refl, sym, String, ◌+s◌, Bool, true, false, ◌⊎◌, inl, inr, Option, none, some, arith,
  ◌==◌, str_eq, if◌then◌else◌, Bool-cases,
}
use embx.Prelude.Result.{Result, ok, err}
use embx.Core.Symbol.{
  SymbolId, SymbolKind, Symbol, Scope, SymbolTable, invalid_symbol_id, resolve_in, find, find_id,
}

pub data ResolveStatus : Type 0 where
  resolved empty_name unresolved kind_mismatch : ResolveStatus

pub record ResolveResult : Type 0 where
  pub id : SymbolId
  pub status : ResolveStatus

abbrev pub result : SymbolId → ResolveStatus → ResolveResult
result id status = record { id = id; status = status }

pub Kind-discrete : Discrete SymbolKind
Kind-discrete = hlevel

pub record NameResolver : Type 0 where
  pub symbols : SymbolTable
  pub scope : Option Scope

from_global : SymbolId → ResolveResult
from_global id =
    if id == invalid_symbol_id
    then result id ResolveStatus.unresolved
    else result id ResolveStatus.resolved

local_or_global : Option Scope → String → SymbolTable → ResolveResult
unfolding from_global
local_or_global none name t = from_global (find_id name t)
local_or_global (some s) name t =
    let local = resolve_in name s in
    if local == invalid_symbol_id
    then from_global (find_id name t)
    else result local ResolveStatus.resolved

unfoldable pub resolve_detailed : String → NameResolver → ResolveResult
unfolding local_or_global
resolve_detailed name r =
    if str_eq name ""
    then result invalid_symbol_id ResolveStatus.empty_name
    else local_or_global r.scope name r.symbols

unfoldable pub resolve : String → NameResolver → SymbolId
resolve name r = (resolve_detailed name r).id

unfoldable pub resolve_qualified : String → NameResolver → ResolveResult
unfolding from_global
resolve_qualified name r =
    if str_eq name ""
    then result invalid_symbol_id ResolveStatus.empty_name
    else from_global (find_id name r.symbols)

kind_is : SymbolKind → Option Symbol → Bool
unfolding Kind-discrete
kind_is expected none = false
kind_is expected (some s) = elim (Kind-discrete s.kind expected) [ yes _ ↦ true | no _ ↦ false ]

pub kind_step : SymbolKind → ResolveResult → Option Symbol → ResolveStatus → ResolveResult
unfolding kind_is
kind_step expected found o ResolveStatus.resolved =
    if kind_is expected o then found else result invalid_symbol_id ResolveStatus.kind_mismatch
kind_step expected found o ResolveStatus.empty_name = found
kind_step expected found o ResolveStatus.unresolved = found
kind_step expected found o ResolveStatus.kind_mismatch = found

unfoldable pub resolve_kind : String → SymbolKind → NameResolver → ResolveResult
resolve_kind name expected r =
    let found = resolve_detailed name r in
    kind_step expected found (find found.id r.symbols) found.status

unfoldable pub resolve_required : String → NameResolver → Result SymbolId
resolve_required name r =
    let id = resolve name r in
    if id == invalid_symbol_id then err ("unresolved name: " +s name) else ok id

unfoldable pub symbol : String → NameResolver → Option Symbol
symbol name r = find (resolve name r) r.symbols

-- A result has an identity exactly when its status says so.
abbrev pub Agrees : ResolveResult → Type 0
Agrees r =
    ((r.status ≡ ResolveStatus.resolved) × (r.id ≢ invalid_symbol_id))
    ⊎ ((r.status ≢ ResolveStatus.resolved) × (r.id ≡ invalid_symbol_id))

from_global-Agrees : (id : SymbolId) → Agrees (from_global id)
unfolding from_global
from_global-Agrees id = ground arith

local_or_global-Agrees :
    (scope : Option Scope) (name : String) (t : SymbolTable) → Agrees (local_or_global scope name t)
unfolding local_or_global
local_or_global-Agrees none name t = from_global-Agrees (find_id name t)
local_or_global-Agrees (some s) name t = ground arith

if-Agrees :
    (b : Bool) {x : ResolveResult} {y : ResolveResult}
    → Agrees x
    → Agrees y
    → Agrees (if b then x else y)
if-Agrees true a b = a
if-Agrees false a b = b

abbrev pub IsKind : SymbolKind → Option Symbol → Type 0
IsKind expected o = (s : Symbol) × (o ≡ some s) × (s.kind ≡ expected)

kind_is-true :
    (expected : SymbolKind) (o : Option Symbol) → kind_is expected o ≡ true → IsKind expected o
unfolding kind_is Kind-discrete
kind_is-true expected none e = ground arith
kind_is-true expected (some s) e = elim (Kind-discrete s.kind expected) [
  | yes k ↦ (s, refl, k)
  | no n ↦ ground arith
]

kind_step-Agrees :
    (expected : SymbolKind) (found : ResolveResult) (o : Option Symbol) (status : ResolveStatus)
    → found.status ≡ status
    → Agrees found
    → Agrees (kind_step expected found o status)
unfolding kind_step
kind_step-Agrees expected found o ResolveStatus.resolved e a =
    if-Agrees (kind_is expected o) a (inr (ground arith, refl))
kind_step-Agrees expected found o ResolveStatus.empty_name e a = a
kind_step-Agrees expected found o ResolveStatus.unresolved e a = a
kind_step-Agrees expected found o ResolveStatus.kind_mismatch e a = a

detailed-Agrees : (name : String) (r : NameResolver) → Agrees (resolve_detailed name r)
unfolding resolve_detailed
detailed-Agrees name r =
    if-Agrees (str_eq name "") (inr (ground arith, refl))
      (local_or_global-Agrees r.scope name r.symbols)

-- What `resolve_kind` gives: the result of `resolve_detailed`, if that is not resolved or has a symbol
-- of the expected kind, and else a mismatch.
abbrev pub KindResult : SymbolKind → NameResolver → ResolveResult → ResolveResult → Type 0
KindResult expected r found res =
    ((found.status ≢ ResolveStatus.resolved) × (res ≡ found))
    ⊎ ((found.status ≡ ResolveStatus.resolved)
        × (IsKind expected (find found.id r.symbols) × (res ≡ found)))
    ⊎ ((found.status ≡ ResolveStatus.resolved)
        × (¬ IsKind expected (find found.id r.symbols))
        × (res ≡ result invalid_symbol_id ResolveStatus.kind_mismatch))

kind_is-false :
    (expected : SymbolKind) (o : Option Symbol) → kind_is expected o ≡ false → ¬ IsKind expected o
unfolding kind_is Kind-discrete
kind_is-false expected none e = λ (s, found, k). cc
kind_is-false expected (some s) e = elim (Kind-discrete s.kind expected) [
  | yes k ↦ ground arith
  | no n ↦ λ (t, found, k). let same : s ≡ t = cc in n (rw (sym same) at k)
]

kind_step-KindResult :
    (expected : SymbolKind) (r : NameResolver) (found : ResolveResult) (status : ResolveStatus)
    → found.status ≡ status
    → KindResult expected r found (kind_step expected found (find found.id r.symbols) status)
unfolding kind_step
kind_step-KindResult expected r found ResolveStatus.resolved e =
    elim (Bool-cases (kind_is expected (find found.id r.symbols))) [
      | inl t ↦ inr (inl (e, (kind_is-true expected (find found.id r.symbols) t, rw t refl)))
      | inr f ↦ inr (inr (e, kind_is-false expected (find found.id r.symbols) f, rw f refl))
    ]
kind_step-KindResult expected r found ResolveStatus.empty_name e = inl (ground arith, refl)
kind_step-KindResult expected r found ResolveStatus.unresolved e = inl (ground arith, refl)
kind_step-KindResult expected r found ResolveStatus.kind_mismatch e = inl (ground arith, refl)

-- In every way of resolving, the status is `resolved` exactly when the identity is valid; and
-- `resolve_kind` gives the result of `resolve_detailed` unless that is resolved to no symbol of the
-- expected kind: then it is a mismatch without an identity.
pub resolve-Agrees :
    (name : String) (expected : SymbolKind) (r : NameResolver)
    → Agrees (resolve_detailed name r)
      × Agrees (resolve_qualified name r)
      × Agrees (resolve_kind name expected r)
      × KindResult expected r (resolve_detailed name r) (resolve_kind name expected r)
unfolding resolve_detailed resolve_qualified resolve_kind
resolve-Agrees name expected r =
    let a = detailed-Agrees name r in
    let found = resolve_detailed name r in
    let k = kind_step-KindResult expected r found found.status refl in
    (
      a,
      if-Agrees (str_eq name "") (inr (ground arith, refl))
          (from_global-Agrees (find_id name r.symbols)),
      kind_step-Agrees expected found (find found.id r.symbols) found.status refl a,
      k,
    )

-- core/Semantic.h
pub data CallbackDirection : Type 0 where
  unspecified decode encode : CallbackDirection

unfoldable pub callback_direction_from_name : String → CallbackDirection
callback_direction_from_name name =
    if starts_with name "on_decode"
    then CallbackDirection.decode
    else if starts_with name "on_encode"
    then CallbackDirection.encode
    else CallbackDirection.unspecified
