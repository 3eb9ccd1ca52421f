-- ===== src/Prelude/Result.antt =====
-- A call that returns a value or stops with a message: an exception's `what()`, or `false` with the
-- text that the source leaves in its `error` parameter.
use embx.Prelude.{◌≡◌, refl, String, Bool, true, false, if◌then◌else◌, ◌⊎◌, inl, inr}

pub data Result {ℓ} (A : Type ℓ) : Type ℓ where
  ok : A → Result A
  err : String → Result A

infixl 5 ◌>>=◌ ◌>>◌
abbrev pub ◌>>=◌ {ℓ κ} : {V : Type ℓ} {W : Type κ} (r : Result V) → (V → Result W) → Result W
err message >>= next = err message
ok v >>= next = next v

abbrev pub ◌>>◌ {ℓ} : {W : Type ℓ} (guard : Result (Unit {0})) → Result W → Result W
guard >> rest = guard >>= λ (_ : Unit {0}). rest

-- `if (bad) throw …;` and `if (bad) { error = …; return false; }`
abbrev pub refuse_if : Bool → String → Result (Unit {0})
refuse_if true e = err e
refuse_if false e = ok tt

pub >>=-eq-ok {ℓ κ} :
    {V : Type ℓ} {W : Type κ} (r : Result V) (next : V → Result W) {w : W}
    → (r >>= next) ≡ ok w
    → (v : V) × (r ≡ ok v) × (next v ≡ ok w)
>>=-eq-ok (err message) next both = cc
>>=-eq-ok (ok v) next both = (v, refl, both)

pub Result-cases {ℓ} :
    {A : Type ℓ} (r : Result A) → ((a : A) × (r ≡ ok a)) ⊎ ((e : String) × (r ≡ err e))
Result-cases (ok a) = inl (a, refl)
Result-cases (err e) = inr (e, refl)

-- A refusal that was passed.
pub refuse_if-eq-ok {ℓ} :
    {A : Type ℓ} (b : Bool) (e : String) (m : Result A) {a : A}
    → (refuse_if b e >> m) ≡ ok a
    → (b ≡ false) × (m ≡ ok a)
refuse_if-eq-ok true e m h = cc
refuse_if-eq-ok false e m h = (refl, h)

-- What holds of every value that a call returns.
abbrev pub Yields {ℓ κ} : {A : Type ℓ} → (A → Type κ) → Result A → Type κ
Yields P (ok a) = P a
Yields P (err e) = Unit

pub >>=-Yields {ℓ κ λ₁ λ₂} :
    {A : Type ℓ} {B : Type κ} (P : A → Type λ₁) (Q : B → Type λ₂) (r : Result A)
    (next : A → Result B)
    → Yields P r
    → ((a : A) → P a → Yields Q (next a))
    → Yields Q (r >>= next)
>>=-Yields P Q (err e) next first later = tt
>>=-Yields P Q (ok a) next first later = later a first

pub refuse_if-Yields {ℓ κ} :
    {B : Type ℓ} (Q : B → Type κ) (b : Bool) (e : String) (next : Result B)
    → (b ≡ false → Yields Q next)
    → Yields Q (refuse_if b e >> next)
refuse_if-Yields Q true e next later = tt
refuse_if-Yields Q false e next later = later refl

pub Yields-ok {ℓ κ} :
    {A : Type ℓ} (P : A → Type κ) (r : Result A) {a : A} → Yields P r → r ≡ ok a → P a
Yields-ok P (err e) {a} y h = cc
Yields-ok P (ok b) {a} y h = let e : b ≡ a = cc in rw e at y

pub if-Yields {ℓ κ} :
    {A : Type ℓ} (P : A → Type κ) (b : Bool) (x y : Result A)
    → (b ≡ true → Yields P x)
    → (b ≡ false → Yields P y)
    → Yields P (if b then x else y)
if-Yields P true x y u v = u refl
if-Yields P false x y u v = v refl

-- A call whose value the rest does not depend on.
pub >>=-Yields_any {ℓ κ λ₁} :
    {A : Type ℓ} {B : Type κ} (P : B → Type λ₁) (r : Result A) (next : A → Result B)
    → ((a : A) → Yields P (next a))
    → Yields P (r >>= next)
>>=-Yields_any P (err e) next later = tt
>>=-Yields_any P (ok a) next later = later a

pub Yields-map {ℓ κ λ₁} :
    {A : Type ℓ} (P : A → Type κ) (Q : A → Type λ₁) (r : Result A)
    → Yields P r
    → ((a : A) → P a → Q a)
    → Yields Q r
Yields-map P Q (err e) y f = tt
Yields-map P Q (ok a) y f = f a y
