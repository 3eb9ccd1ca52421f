-- ===== src/Runtime/Evaluator/Agree.antt =====
-- runtime/ExpressionEvaluator.cpp: the evaluator over names and the one over symbols.
use embx.Prelude.{
  ◌≡◌, refl, String, Bool, true, false, not, Option, none, some, List, str_eq, ◌+s◌, if◌then◌else◌,
}
use embx.Prelude.Map.{nat_key, text_key, lookup}
use embx.Prelude.Result.{Result, ok, err, ◌>>=◌, ◌>>◌, refuse_if}
use embx.Core.CLibrary.{CLibrary}
use embx.Core.Symbol.{SymbolId, valid}
use embx.Core.Expr.{ExprKind, Expr, null_expr, node}
use embx.Runtime.Evaluator.{
  Value, int, uint, dbl, boolean, binary, negated, short_circuit, short_and, short_or, found, eval,
  eval_symbol,
}

abbrev pub to_option {ℓ} : {A : Type ℓ} → Result A → Option A
to_option (ok a) = some a
to_option (err e) = none

-- Each identifier of a tree is resolved, and its symbol has the value of its name.
unfoldable pub Mirrors :
    {F : Type 0} → List (String × Value F) → List (SymbolId × Value F) → Expr → Type 0
Mirrors names symbols null_expr = Unit
Mirrors names symbols (node ExprKind.identifier text op ref type l r) =
    (valid ref ≡ true) × (lookup ref symbols ≡ lookup text names)
Mirrors names symbols (node ExprKind.literal text op ref type l r) = Unit
Mirrors names symbols (node ExprKind.parenthesized text op ref type l r) = Mirrors names symbols l
Mirrors names symbols (node ExprKind.unary text op ref type l r) = Mirrors names symbols r
Mirrors names symbols (node ExprKind.binary text op ref type l r) =
    Mirrors names symbols l × Mirrors names symbols r

-- Two results that differ in their messages at most.
abbrev Alike : {A : Type 0} → Result A → Result A → Type 0
Alike m k = to_option m ≡ to_option k

Alike-bind :
    {A B : Type 0} (m k : Result A) (f g : A → Result B)
    → Alike m k
    → ((a : A) → Alike (f a) (g a))
    → Alike (m >>= f) (k >>= g)
Alike-bind (ok a) (ok b) f g e h = let same : a ≡ b = cc in rw same (h b)
Alike-bind (ok a) (err b) f g e h = cc
Alike-bind (err a) (ok b) f g e h = cc
Alike-bind (err a) (err b) f g e h = refl

if-Alike :
    {A : Type 0} (b : Bool) (m k m' k' : Result A)
    → Alike m k
    → Alike m' k'
    → Alike (if b then m else m') (if b then k else k')
if-Alike true m k m' k' e e' = e
if-Alike false m k m' k' e e' = e'

found-Alike :
    {F L : Type 0} (c : CLibrary F L) (s t : String) (o : Option (Value F))
    → Alike (found c s o) (found c t o)
found-Alike c s t none = refl
found-Alike c s t (some v) = refl

module _ {F L : Type 0} (c : CLibrary F L) where
  short_and-Alike :
      (a : Value F) (m k : Result (Value F)) → Alike m k → Alike (short_and c a m) (short_and c a k)
  unfolding short_and
  short_and-Alike (boolean true) m k e = e
  short_and-Alike (boolean false) m k e = refl
  short_and-Alike (int z) m k e = refl
  short_and-Alike (uint n) m k e = refl
  short_and-Alike (dbl x) m k e = refl

  short_or-Alike :
      (a : Value F) (m k : Result (Value F)) → Alike m k → Alike (short_or c a m) (short_or c a k)
  unfolding short_or
  short_or-Alike (boolean true) m k e = refl
  short_or-Alike (boolean false) m k e = e
  short_or-Alike (int z) m k e = refl
  short_or-Alike (uint n) m k e = refl
  short_or-Alike (dbl x) m k e = refl

  short_circuit-Alike :
      (op : String) (a : Value F) (m k : Result (Value F))
      → Alike m k
      → Alike (short_circuit c op a m) (short_circuit c op a k)
  unfolding short_circuit
  short_circuit-Alike op a m k e =
      if-Alike (str_eq op "&&") _ _ _ _ (short_and-Alike a m k e)
        (if-Alike (str_eq op "||") _ _ _ _ (short_or-Alike a m k e) e)

  unary-Alike :
      (b : Bool) (message : String) (m k : Result (Value F))
      → Alike m k
      → Alike
          (m >>= λ v. refuse_if b message >> negated c v)
          (refuse_if b message >> k >>= negated c)
  unary-Alike true message (ok v) k e = refl
  unary-Alike true message (err m) k e = refl
  unary-Alike false message m k e = Alike-bind m k (negated c) (negated c) e (λ v. refl)

  -- When every identifier of a tree is resolved and the two environments give it one value, the two
  -- evaluators succeed on the same trees, with the same value.
  pub eval_symbol-eval :
      (names : List (String × Value F)) (symbols : List (SymbolId × Value F)) (e : Expr)
      → Mirrors names symbols e
      → to_option (eval_symbol c symbols e) ≡ to_option (eval c names e)
  unfolding Mirrors eval eval_symbol
  eval_symbol-eval names symbols null_expr m = refl
  eval_symbol-eval names symbols (node ExprKind.literal text op ref type l r) m = refl
  eval_symbol-eval names symbols (node ExprKind.parenthesized text op ref type l r) m =
      eval_symbol-eval names symbols l m
  eval_symbol-eval names symbols (node ExprKind.identifier text op ref type l r) (v, e) =
      rw (v, e) (found-Alike c _ _ (lookup text names))
  eval_symbol-eval names symbols (node ExprKind.unary text op ref type l r) m =
      unary-Alike (not (str_eq op "-")) ("unknown unary operator: " +s op) (eval_symbol c symbols r)
        (eval c names r) (eval_symbol-eval names symbols r m)
  eval_symbol-eval names symbols (node ExprKind.binary text op ref type l r) (ml, mr) =
      Alike-bind (eval_symbol c symbols l) (eval c names l) _ _
        (eval_symbol-eval names symbols l ml)
        (λ a. short_circuit-Alike op a _ _ (
          Alike-bind (eval_symbol c symbols r) (eval c names r) (λ b. binary c op a b)
            (λ b. binary c op a b) (eval_symbol-eval names symbols r mr) (λ b. refl)))
