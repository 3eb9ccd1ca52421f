-- ===== src/Runtime/Evaluator/Typed.antt =====
-- core/Expr.h and runtime/ExpressionEvaluator.cpp: the types that inference gives, against the
-- values of the evaluation.
use text.Mathlib.Text.{starts_with}
use embx.Prelude.{
  ℕ, ◌≡◌, refl, ◌⊎◌, inl, inr, arith, String, Bool, true, false, not, ◌||◌, Option, none, some,
  List, str_eq, ◌+s◌, if◌then◌else◌, Bool-cases,
}
use embx.Prelude.Int.{ℤ, pos, ltb_ℤ}
use embx.Prelude.Map.{text_key, lookup}
use embx.Prelude.Result.{Result, ok, err, ◌>>=◌, ◌>>◌, refuse_if, >>=-eq-ok, refuse_if-eq-ok}
use embx.Core.CLibrary.{Parsed, CLibrary}
use embx.Core.Expr.{
  ExprKind, ExprType, Expr, null_expr, node, has, is_hex, is_next_or_size, is_logical,
  is_comparison, joined, negated_type, logical_type, comparison_type, arithmetic_type, binary_type,
  infer_literal, float_type, integer_type, infer,
}
use embx.Runtime.Host.{to_int64, to_uint64}
use embx.Runtime.Evaluator.{
  operands, Value, int, uint, dbl, boolean, is_double, integer_operands, logical, signed_binary,
  unsigned_binary, integer_binary, compared, real_binary, binary, parse_literal, float_literal,
  integer_literal, negated, found, short_and, short_or, short_circuit, eval, as_real,
}

abbrev pub is_uint : {F : Type 0} → Value F → Bool
is_uint (uint _) = true
is_uint _ = false

-- The values of an inferred type. Nothing is known of `unknown` but that no double has it.
abbrev pub has_type : {F : Type 0} → ExprType → Value F → Bool
has_type ExprType.integer_signed (int _) = true
has_type ExprType.integer_unsigned (uint _) = true
has_type ExprType.floating (dbl _) = true
has_type ExprType.boolean (boolean _) = true
has_type ExprType.unknown v = not (is_double v)
has_type _ _ = false

-- The environment holds no double, and unsigned words for `$next` and the three sizes.
abbrev pub IsPlain : {F : Type 0} → List (String × Value F) → Type 0
IsPlain {F} env =
    (name : String) (v : Value F)
    → lookup name env ≡ some v
    → (is_double v ≡ false) × (is_next_or_size name ≡ true → is_uint v ≡ true)

module _ {F : Type 0} where
  unsigned-has :
      (op : String) (a b : ℕ) (v : Value F)
      → unsigned_binary op a b ≡ ok v
      → has_type ExprType.integer_unsigned v ≡ true
  unfolding unsigned_binary
  unsigned-has op a b v e = ground arith

  signed-has :
      (op : String) (a b : ℤ) (v : Value F)
      → signed_binary op a b ≡ ok v
      → has_type ExprType.integer_signed v ≡ true
  unfolding signed_binary
  signed-has op a b v e = ground arith

  logical-has :
      (op : String) (a b v : Value F) → logical op a b ≡ ok v → has_type ExprType.boolean v ≡ true
  unfolding logical
  logical-has op a b v e = ground arith

  joined_unsigned :
      (a b v : Value F) (l r : ExprType)
      → has_type l a ≡ true
      → has_type r b ≡ true
      → is_double a ≡ false
      → is_double b ≡ false
      → (is_uint a || is_uint b) ≡ true
      → has_type ExprType.integer_unsigned v ≡ true
      → has_type (joined l r) v ≡ true
  joined_unsigned a b v l r ha hb da db u h = ground arith

  joined_signed :
      (x y : ℤ) (v : Value F) (l r : ExprType)
      → has_type {F = F} l (int x) ≡ true
      → has_type {F = F} r (int y) ≡ true
      → has_type ExprType.integer_signed v ≡ true
      → has_type (joined l r) v ≡ true
  joined_signed x y v l r ha hb h = ground arith

  mixed-has :
      (op : String) (v : Value F) (b : Bool) (message : String) (x y : ℕ)
      → (refuse_if b message >> ok (operands x y true) >>= λ o.
          if o.unsigned
          then unsigned_binary op o.ua o.ub
          else signed_binary op (to_int64 o.ua) (to_int64 o.ub))
        ≡ ok v
      → has_type ExprType.integer_unsigned v ≡ true
  mixed-has op v true message x y e = cc
  mixed-has op v false message x y e = unsigned-has op x y v e

  integer-has :
      (op : String) (a b v : Value F) (l r : ExprType)
      → has_type l a ≡ true
      → has_type r b ≡ true
      → is_double a ≡ false
      → is_double b ≡ false
      → integer_binary op a b ≡ ok v
      → has_type (joined l r) v ≡ true
  unfolding integer_binary integer_operands
  integer-has op (uint a) (uint b) v l r ha hb da db e =
      joined_unsigned (uint a) (uint b) v l r ha hb da db refl (unsigned-has op a b v e)
  integer-has op (int a) (uint b) v l r ha hb da db e =
      joined_unsigned (int a) (uint b) v l r ha hb da db refl (
        mixed-has op v (ltb_ℤ a (pos 0))
          "mixed signed/unsigned operation with negative signed operand" (to_uint64 a) b e)
  integer-has op (uint a) (int b) v l r ha hb da db e =
      joined_unsigned (uint a) (int b) v l r ha hb da db refl (
        mixed-has op v (ltb_ℤ b (pos 0))
          "mixed signed/unsigned operation with negative signed operand" a (to_uint64 b) e)
  integer-has op (int a) (int b) v l r ha hb da db e =
      joined_signed a b v l r ha hb (signed-has op _ _ v e)
  integer-has op (dbl a) b v l r ha hb da db e = ground arith
  integer-has op (boolean a) (int b) v l r ha hb da db e = ground arith
  integer-has op (boolean a) (uint b) v l r ha hb da db e = ground arith
  integer-has op (boolean a) (dbl b) v l r ha hb da db e = ground arith
  integer-has op (boolean a) (boolean b) v l r ha hb da db e = ground arith
  integer-has op (int a) (dbl b) v l r ha hb da db e = ground arith
  integer-has op (int a) (boolean b) v l r ha hb da db e = ground arith
  integer-has op (uint a) (dbl b) v l r ha hb da db e = ground arith
  integer-has op (uint a) (boolean b) v l r ha hb da db e = ground arith

  module _ {L : Type 0} (c : CLibrary F L) where
    compared-has :
        (op : String) (a b v : Value F)
        → compared c op a b ≡ ok v
        → has_type ExprType.boolean v ≡ true
    unfolding compared
    compared-has op a b v e = ground arith

    real-has :
        (op : String) (x y : L) (v : Value F)
        → real_binary c op x y ≡ ok v
        → has_type ExprType.floating v ≡ true
    unfolding real_binary
    real-has op x y v e = ground arith

    negated-has :
        (t u : ExprType) (v w : Value F)
        → has_type t v ≡ true
        → negated_type t ≡ ok u
        → negated c v ≡ ok w
        → has_type u w ≡ true
    unfolding negated_type negated
    negated-has t u v w h e f = ground arith

    float-has :
        (s : String) (o : Option (Parsed F)) (t : ExprType) (v : Value F)
        → float_type c s o ≡ ok t
        → float_literal c s o ≡ ok v
        → has_type t v ≡ true
    unfolding float_type float_literal
    float-has s o t v e f = ground arith

    whole-has :
        (s : String) (o : Option (Parsed ℕ)) (t : ExprType) (v : Value F)
        → integer_type c s o ≡ ok t
        → integer_literal c s o ≡ ok v
        → has_type t v ≡ true
    unfolding integer_type integer_literal
    whole-has s o t v e f = ground arith

    if-has :
        (b : Bool) (m n : Result ExprType) (k j : Result (Value F)) (t : ExprType) (v : Value F)
        → (m ≡ ok t → k ≡ ok v → has_type t v ≡ true)
        → (n ≡ ok t → j ≡ ok v → has_type t v ≡ true)
        → (if b then m else n) ≡ ok t
        → (if b then k else j) ≡ ok v
        → has_type t v ≡ true
    if-has true m n k j t v g h = g
    if-has false m n k j t v g h = h

    text-has :
        (is_yes is_no quoted : Bool) (n : Result ExprType) (j : Result (Value F)) (t : ExprType)
        (v : Value F)
        → (n ≡ ok t → j ≡ ok v → has_type t v ≡ true)
        → (if is_yes || is_no
            then ok ExprType.boolean
            else if quoted
            then ok ExprType.string
            else n)
          ≡ ok t
        → (if is_yes
            then ok (boolean true)
            else if is_no
            then ok (boolean false)
            else if quoted
            then err "string literal is not numeric"
            else j)
          ≡ ok v
        → has_type t v ≡ true
    text-has true is_no quoted n j t v h e f = ground arith
    text-has false true quoted n j t v h e f = ground arith
    text-has false false true n j t v h e f = ground arith
    text-has false false false n j t v h e f = h e f

    literal-has :
        (s : String) (t : ExprType) (v : Value F)
        → infer_literal c s ≡ ok t
        → parse_literal c s ≡ ok v
        → has_type t v ≡ true
    unfolding infer_literal parse_literal
    literal-has s t v e f =
        if-has (str_eq s "") _ _ _ _ t v (ground arith)
          (text-has (str_eq s "true") (str_eq s "false") (starts_with s "\"") _ _ t v (
            if-has (has s ".") _ _ _ _ t v (float-has s (c.strtod s) t v)
              (whole-has s (c.stoull s (if is_hex s then 16 else 10)) t v)))
          e f

    joined_floating :
        (a b : Value F) (l r : ExprType)
        → has_type l a ≡ true
        → has_type r b ≡ true
        → (is_double a || is_double b) ≡ true
        → joined l r ≡ ExprType.floating
    joined_floating a b l r ha hb d = ground arith

    arithmetic_joined :
        (op : String) (l r t : ExprType) → arithmetic_type op l r ≡ ok t → t ≡ joined l r
    unfolding arithmetic_type
    arithmetic_joined op l r t e = ground arith

    or_false : (a b : Bool) → (a || b) ≡ false → (a ≡ false) × (b ≡ false)
    or_false a b e = ground arith

    arithmetic-has :
        (op : String) (a b v : Value F) (l r : ExprType)
        → has_type l a ≡ true
        → has_type r b ≡ true
        → (if is_double a || is_double b
            then real_binary c op (as_real c a) (as_real c b)
            else integer_binary op a b)
          ≡ ok v
        → has_type (joined l r) v ≡ true
    arithmetic-has op a b v l r ha hb f = elim (Bool-cases (is_double a || is_double b)) [
      | inl d ↦
          rw (joined_floating a b l r ha hb d)
            (real-has op (as_real c a) (as_real c b) v (rw d at f))
      | inr n ↦
          let (da, db) = or_false (is_double a) (is_double b) n in
          integer-has op a b v l r ha hb da db (rw n at f)
    ]

    logical_boolean : (l r t : ExprType) → logical_type l r ≡ ok t → t ≡ ExprType.boolean
    unfolding logical_type
    logical_boolean l r t e = ground arith

    comparison_boolean : (l r t : ExprType) → comparison_type l r ≡ ok t → t ≡ ExprType.boolean
    unfolding comparison_type
    comparison_boolean l r t e = ground arith

    binary-has :
        (op : String) (a b v : Value F) (l r t : ExprType)
        → has_type l a ≡ true
        → has_type r b ≡ true
        → binary_type op l r ≡ ok t
        → binary c op a b ≡ ok v
        → has_type t v ≡ true
    unfolding binary_type binary
    binary-has op a b v l r t ha hb =
        if-has (is_logical op) _ _ _ _ t v
          (λ e f. rw (logical_boolean l r t e) (logical-has op a b v f))
          (if-has (is_comparison op) _ _ _ _ t v
            (λ e f. rw (comparison_boolean l r t e) (compared-has op a b v f))
            (λ e f. rw (arithmetic_joined op l r t e) (arithmetic-has op a b v l r ha hb f)))

    and-has :
        (a : Value F) (rest : Result (Value F)) (v : Value F)
        → short_and c a rest ≡ ok v
        → (rest ≡ ok v) ⊎ (v ≡ boolean false)
    unfolding short_and
    and-has (boolean true) rest v e = inl e
    and-has (boolean false) rest v e = inr cc
    and-has (int z) rest v e = inl cc
    and-has (uint n) rest v e = inl cc
    and-has (dbl x) rest v e = inl cc

    or-has :
        (a : Value F) (rest : Result (Value F)) (v : Value F)
        → short_or c a rest ≡ ok v
        → (rest ≡ ok v) ⊎ (v ≡ boolean true)
    unfolding short_or
    or-has (boolean true) rest v e = inr cc
    or-has (boolean false) rest v e = inl e
    or-has (int z) rest v e = inl cc
    or-has (uint n) rest v e = inl cc
    or-has (dbl x) rest v e = inl cc

    short_circuit-has :
        (is_and is_or : Bool) (a : Value F) (rest : Result (Value F)) (t : ExprType) (v : Value F)
        → ((is_and || is_or) ≡ true → t ≡ ExprType.boolean)
        → (rest ≡ ok v → has_type t v ≡ true)
        → (if is_and then short_and c a rest else if is_or then short_or c a rest else rest) ≡ ok v
        → has_type t v ≡ true
    short_circuit-has true is_or a rest t v b h e = elim (and-has a rest v e) [
      | inl whole ↦ h whole
      | inr short ↦ rw (b refl, short) refl
    ]
    short_circuit-has false true a rest t v b h e = elim (or-has a rest v e) [
      | inl whole ↦ h whole
      | inr short ↦ rw (b refl, short) refl
    ]
    short_circuit-has false false a rest t v b h e = h e

    logical_type-of :
        (op : String) (l r t : ExprType)
        → binary_type op l r ≡ ok t
        → is_logical op ≡ true
        → t ≡ ExprType.boolean
    unfolding binary_type
    logical_type-of op l r t e lo =
        let e' : logical_type l r ≡ ok t = rw lo at e in logical_boolean l r t e'

    named-has :
        (is_empty is_known : Bool) (t : ExprType) (v : Value F)
        → is_double v ≡ false
        → (is_known ≡ true → is_uint v ≡ true)
        → (if is_empty
            then err "empty expression node"
            else if is_known
            then ok ExprType.integer_unsigned
            else ok ExprType.unknown)
          ≡ ok t
        → has_type t v ≡ true
    named-has true is_known t v d u e = cc
    named-has false true t v d u e =
        let same : ExprType.integer_unsigned ≡ t = cc in rw (← same) (u refl)
    named-has false false t v d u e = let same : ExprType.unknown ≡ t = cc in rw (← same, d) refl

    identifier-has :
        (name : String) (message : String) (o : Option (Value F)) (t : ExprType) (v : Value F)
        → ((w : Value F)
            → o ≡ some w
            → (is_double w ≡ false) × (is_next_or_size name ≡ true → is_uint w ≡ true))
        → (if str_eq name ""
            then err "empty expression node"
            else if is_next_or_size name
            then ok ExprType.integer_unsigned
            else ok ExprType.unknown)
          ≡ ok t
        → found c message o ≡ ok v
        → has_type t v ≡ true
    identifier-has name message none t v h e f = cc
    identifier-has name message (some w) t v h e f =
        let (d, u) = h w refl in
        let same : w ≡ v = cc in
        named-has (str_eq name "") (is_next_or_size name) t v (rw same at d) (rw same at u) e

    -- Where the environment holds no double and only unsigned words under the reserved names, a tree
    -- that inference accepts evaluates, when it does, to a value of the inferred type: to `int64_t`,
    -- `uint64_t`, `double` or `bool` for the four known types, and to no double for `Unknown`.
    pub eval-infer :
        (env : List (String × Value F)) (e : Expr) (t : ExprType) (v : Value F)
        → IsPlain env
        → infer c e ≡ ok t
        → eval c env e ≡ ok v
        → has_type t v ≡ true
    unfolding infer eval short_circuit
    eval-infer env null_expr t v p i h = cc
    eval-infer env (node ExprKind.literal text op ref type l r) t v p i h = literal-has text t v i h
    eval-infer env (node ExprKind.identifier text op ref type l r) t v p i h =
        identifier-has text ("unknown identifier: " +s text) (lookup text env) t v (p text) i h
    eval-infer env (node ExprKind.parenthesized text op ref type l r) t v p i h =
        eval-infer env l t v p i h
    eval-infer env (node ExprKind.unary text op ref type l r) t v p i h =
        let (u, iu, it) =
          >>=-eq-ok
            (refuse_if (not (str_eq op "-")) ("unknown unary operator: " +s op) >> infer c r)
            negated_type i in
        let (w, hw, hv) =
          >>=-eq-ok
            (refuse_if (not (str_eq op "-")) ("unknown unary operator: " +s op) >> eval c env r)
            (negated c) h in
        let (b, ir) =
          refuse_if-eq-ok (not (str_eq op "-")) ("unknown unary operator: " +s op) (infer c r) iu in
        let (b', hr) =
          refuse_if-eq-ok (not (str_eq op "-")) ("unknown unary operator: " +s op) (eval c env r)
            hw in
        negated-has u t w v (eval-infer env r u w p ir hr) it hv
    eval-infer env (node ExprKind.binary text op ref type l r) t v p i h =
        let (b, rest) =
          refuse_if-eq-ok _ _ (infer c l >>= λ x. infer c r >>= λ y. binary_type op x y) i in
        let (x, il, rest') =
          >>=-eq-ok (infer c l) (λ x. infer c r >>= λ y. binary_type op x y) rest in
        let (y, ir, it) = >>=-eq-ok (infer c r) (λ y. binary_type op x y) rest' in
        let (a, hl, hs) = >>=-eq-ok (eval c env l) _ h in
        short_circuit-has (str_eq op "&&") (str_eq op "||") a
          (eval c env r >>= λ z. binary c op a z) t v (logical_type-of op x y t it)
          (λ hr.
            let (z, hz, hb) = >>=-eq-ok (eval c env r) (λ z. binary c op a z) hr in
            binary-has op a z v x y t (eval-infer env l x a p il hl) (eval-infer env r y z p ir hz)
              it hb)
          hs
