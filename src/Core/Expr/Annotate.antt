-- ===== src/Core/Expr/Annotate.antt =====
-- core/Expr.h: what `annotateExprTypes` and `cloneExpr` leave of a tree.
use embx.Prelude.{◌≡◌, refl, sym, ap, ◌∙◌, String}
use embx.Prelude.Result.{Result, ok, err}
use embx.Core.CLibrary.{CLibrary}
use embx.Core.Symbol.{SymbolId}
use embx.Core.Expr.{
  ExprKind, ExprType, Expr, null_expr, node, clone, infer, annotate, set_type, annotated_right,
  annotated_left, child,
}

-- A tree without its types.
unfoldable pub erase : Expr → Expr
erase null_expr = null_expr
erase (node k text op ref type l r) = node k text op ref ExprType.unknown (erase l) (erase r)

clone-eq : (e : Expr) → clone e ≡ e
unfolding clone
clone-eq null_expr = refl
clone-eq (node k text op ref type l r) = rw (clone-eq l, clone-eq r)

module _ {F L : Type 0} (c : CLibrary F L) where
  infer-type :
      (k : ExprKind) (text op : String) (ref : SymbolId) (t u : ExprType) (l r : Expr)
      → infer c (node k text op ref t l r) ≡ infer c (node k text op ref u l r)
  unfolding infer
  infer-type ExprKind.literal text op ref t u l r = refl
  infer-type ExprKind.identifier text op ref t u l r = refl
  infer-type ExprKind.unary text op ref t u l r = refl
  infer-type ExprKind.binary text op ref t u l r = refl
  infer-type ExprKind.parenthesized text op ref t u l r = refl

  infer-erase : (e : Expr) → infer c (erase e) ≡ infer c e
  unfolding infer erase
  infer-erase null_expr = refl
  infer-erase (node ExprKind.literal text op ref t l r) = refl
  infer-erase (node ExprKind.identifier text op ref t l r) = refl
  infer-erase (node ExprKind.unary text op ref t l r) = rw (infer-erase r)
  infer-erase (node ExprKind.binary text op ref t l r) = rw (infer-erase l, infer-erase r)
  infer-erase (node ExprKind.parenthesized text op ref t l r) = infer-erase l

  -- Every node's type is the one inferred for the tree below it.
  unfoldable pub IsAnnotated : Expr → Type 0
  IsAnnotated null_expr = Unit
  IsAnnotated (node k text op ref type l r) =
      (infer c (node k text op ref type l r) ≡ ok type) × IsAnnotated l × IsAnnotated r

  Good : Expr → Expr × Result (Unit {0}) → Type 0
  Good e (e', done) = done ≡ ok tt → IsAnnotated e' × (erase e' ≡ erase e)

  set_type-Good :
      (k : ExprKind) (text op : String) (ref : SymbolId) (type : ExprType) (l r l' r' : Expr)
      → IsAnnotated l' × (erase l' ≡ erase l)
      → IsAnnotated r' × (erase r' ≡ erase r)
      → (t : Result ExprType) → infer c (node k text op ref type l' r') ≡ t
      → Good (node k text op ref type l r) (set_type c k text op ref l' r' t)
  unfolding set_type Good IsAnnotated erase
  set_type-Good k text op ref type l r l' r' (al, el) (ar, er) (ok t) e =
      λ _. ((infer-type k text op ref t type l' r' ∙ e, al, ar), rw (el, er))
  set_type-Good k text op ref type l r l' r' al ar (err m) e = λ q. cc

  right-Good :
      (k : ExprKind) (text op : String) (ref : SymbolId) (type : ExprType) (l r l' : Expr)
      → IsAnnotated l' × (erase l' ≡ erase l)
      → (p : Expr × Result (Unit {0})) → Good r p
      → Good (node k text op ref type l r) (annotated_right c k text op ref type l' p)
  unfolding annotated_right Good
  right-Good k text op ref type l r l' al (r', ok tt) g =
      set_type-Good k text op ref type l r l' r' al (g refl)
        (infer c (node k text op ref type l' r')) refl
  right-Good k text op ref type l r l' al (r', err m) g = λ q. cc

  left-Good :
      (k : ExprKind) (text op : String) (ref : SymbolId) (type : ExprType) (l r : Expr)
      → (p q : Expr × Result (Unit {0})) → Good l p
      → Good r q
      → Good (node k text op ref type l r) (annotated_left c k text op ref type p r q)
  unfolding annotated_left Good
  left-Good k text op ref type l r (l', ok tt) q g h =
      right-Good k text op ref type l r l' (g refl) q h
  left-Good k text op ref type l r (l', err m) q g h = λ e. cc

  child-Good : (e : Expr) (p : Expr × Result (Unit {0})) → Good e p → Good e (child c e p)
  unfolding child Good IsAnnotated
  child-Good null_expr p g = λ e. (tt, refl)
  child-Good (node k text op ref type l r) p g = g

  annotate-Good : (e : Expr) → Good e (annotate c e)
  unfolding annotate Good
  annotate-Good null_expr = λ q. cc
  annotate-Good (node k text op ref type l r) =
      left-Good k text op ref type l r (child c l (annotate c l)) (child c r (annotate c r))
        (child-Good l (annotate c l) (annotate-Good l))
        (child-Good r (annotate c r) (annotate-Good r))

  -- When `annotateExprTypes` returns true, every node of the tree carries the type inferred for it,
  -- the tree is the given one up to the types, and its inferred type is that of the given tree; and
  -- what `cloneExpr` makes of it is the same tree.
  pub annotate-clone :
      (e e' : Expr)
      → annotate c e ≡ (e', ok tt)
      → IsAnnotated e' × (erase e' ≡ erase e) × (infer c e' ≡ infer c e) × (clone e' ≡ e')
  unfolding Good
  annotate-clone e e' h =
      let g : IsAnnotated (annotate c e).0 × (erase (annotate c e).0 ≡ erase e) =
        annotate-Good e (ap (λ p. p.1) h) in
      let s : (annotate c e).0 ≡ e' = ap (λ p. p.0) h in
      let a : IsAnnotated e' = rw s at g.0 in
      let r : erase e' ≡ erase e = rw s at g.1 in
      (a, r, sym (infer-erase e') ∙ ap (infer c) r ∙ infer-erase e, clone-eq e')
