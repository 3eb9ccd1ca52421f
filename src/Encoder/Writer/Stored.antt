-- ===== src/Encoder/Writer/Stored.antt =====
-- encoder/Encoder.cpp: the byte loops of `Writer::uint` and `Writer::endBits`, and that the loops of
-- the reader read back what they store.
use native.Mathlib.Nat.{div-div-eq-div-mul, mul_comm}
use embx.Prelude.{
  ℕ, zero, suc, ◌+◌, ◌-◌, ◌*◌, ◌/◌, ◌%◌, ◌^◌, ◌≤◌, ◌<◌, ◌≡◌, refl, ap, ◌∙◌, ◌⊎◌, Bool, true, false,
  List, [], ◌∷◌, arith, ltb, leb, ◌&&◌, ◌==◌, if◌then◌else◌, length, get_or, set, length-set,
}
use embx.Prelude.Bits.{mod-mul}
use embx.Runtime.Host.{shr}
use embx.Runtime.Bytes.{slice, of_little, of_big_from, of_bytes, AreBytes, pow-eight_suc}
use embx.Encoder.Writer.{little_loop, big_loop, store}

get_or-set :
    (d : List ℕ) (i j b : ℕ)
    → i < length d
    → get_or (set d i b) j 0 ≡ (if i == j then b else get_or d j 0)
get_or-set [] i j b h = absurd (omega arith)
get_or-set (x ∷ d) zero zero b h = refl
get_or-set (x ∷ d) zero (suc j) b h = ground arith
get_or-set (x ∷ d) (suc i) zero b h = ground arith
get_or-set (x ∷ d) (suc i) (suc j) b h = get_or-set d i j b (omega arith) ∙ ground arith

-- Byte `k` of a word, the least significant first.
abbrev pub byte : ℕ → ℕ → ℕ
byte v k = shr v (8 * k) % 256

little_loop-get_or :
    (d : List ℕ) (p v left i j : ℕ)
    → p + i + left ≤ length d
    → get_or (little_loop d p v left i) j 0
      ≡ (if leb (p + i) j && ltb j (p + i + left) then byte v (j - p) else get_or d j 0)
unfolding little_loop
little_loop-get_or d p v zero i j h = ground arith
little_loop-get_or d p v (suc left) i j h =
    little_loop-get_or (set d (p + i) (byte v i)) p v left (i + 1) j
      (omega (arith, length-set {0} d (p + i) (byte v i)))
    ∙ ground (arith, get_or-set d (p + i) j (byte v i))

big_loop-get_or :
    (d : List ℕ) (p n v left i j : ℕ)
    → i + left ≡ n
    → p + n ≤ length d
    → get_or (big_loop d p n v left i) j 0
      ≡ (if leb p j && ltb j (p + left) then byte v (p + n - 1 - j) else get_or d j 0)
unfolding big_loop
big_loop-get_or d p n v zero i j e h = ground arith
big_loop-get_or d p n v (suc left) i j e h =
    big_loop-get_or (set d (p + n - 1 - i) (byte v i)) p n v left (i + 1) j (omega arith)
      (omega (arith, length-set {0} d (p + n - 1 - i) (byte v i)))
    ∙ ground (arith, get_or-set d (p + n - 1 - i) j (byte v i))

byte-suc : (v k : ℕ) → byte v (suc k) ≡ byte (v / 256) k
byte-suc v k =
    let e : 8 * suc k ≡ 8 * (k + 1) = omega arith in
    rw (e, pow-eight_suc k, ← div-div-eq-div-mul v 256 (2 ^ (8 * k)))

next-index :
    (d : List ℕ) (p k : ℕ) {x : ℕ} → get_or d (p + suc k) 0 ≡ x → get_or d (p + 1 + k) 0 ≡ x
next-index d p k h = let e : p + suc k ≡ p + 1 + k = omega arith in rw e at h

-- A word of n bytes whose byte at each place is that of v is v modulo `2 ^ (8 * n)`.
of_little-bytes :
    (d : List ℕ) (p n v : ℕ)
    → ((k : ℕ) → k < n → get_or d (p + k) 0 ≡ byte v k)
    → of_little (slice d p n) ≡ v % 2 ^ (8 * n)
of_little-bytes d p zero v h = omega arith
of_little-bytes d p (suc n) v h =
    let e : 8 * suc n ≡ 8 * (n + 1) = omega arith in
    let lowest : get_or d p 0 ≡ v % 256 =
      let z : p + 0 ≡ p = omega arith in (rw z at (h 0 (omega arith))) ∙ omega arith in
    rw (e, pow-eight_suc n, mod-mul v 256 (2 ^ (8 * n)))
      (omega (
        arith,
        lowest,
        of_little-bytes d (p + 1) n (v / 256)
            λ k below. next-index d p k (h (suc k) (omega arith)) ∙ byte-suc v k,
      ))

of_big_from-bytes :
    (d : List ℕ) (p n v acc : ℕ)
    → ((k : ℕ) → k < n → get_or d (p + k) 0 ≡ byte v (n - 1 - k))
    → of_big_from acc (slice d p n) ≡ acc * 2 ^ (8 * n) + v % 2 ^ (8 * n)
of_big_from-bytes d p zero v acc h = omega arith
of_big_from-bytes d p (suc n) v acc h =
    let e : 8 * suc n ≡ 8 * (n + 1) = omega arith in
    let b : ℕ = get_or d p 0 in
    let z : p + 0 ≡ p = omega arith in
    let top : suc n - 1 - 0 ≡ n = omega arith in
    let highest : b ≡ byte v n = rw (z, top) at (h 0 (omega arith)) in
    let ih =
      of_big_from-bytes d (p + 1) n v (acc * 256 + b)
        λ k below. next-index d p k (h (suc k) (omega arith)) ∙ ap (byte v) (omega arith) in
    ih
    ∙ rw (e, pow-eight_suc n, mul_comm 256 (2 ^ (8 * n)), mod-mul v (2 ^ (8 * n)) 256)
        (omega (arith, ap (λ (t : ℕ). t * 2 ^ (8 * n)) highest))

-- What `Writer` stores in n bytes, `Reader` finds there: the value modulo `2 ^ (8 * n)`.
pub of_bytes-store :
    (lsb_first : Bool) (d : List ℕ) (p n v : ℕ)
    → p + n ≤ length d
    → of_bytes lsb_first (slice (store lsb_first d p n v) p n) ≡ v % 2 ^ (8 * n)
unfolding store
of_bytes-store true d p n v h =
    of_little-bytes (little_loop d p v n 0) p n v
      λ k below. little_loop-get_or d p v n 0 (p + k) (omega arith) ∙ ground arith
of_bytes-store false d p n v h =
    of_big_from-bytes (big_loop d p n v n 0) p n v 0
      (λ k below. big_loop-get_or d p n v n 0 (p + k) (omega arith) h ∙ ground arith)
    ∙ omega arith

-- Storing a word changes no byte outside of its range.
pub get_or-store_outside :
    (lsb_first : Bool) (d : List ℕ) (p n v j : ℕ)
    → p + n ≤ length d
    → (j < p) ⊎ (p + n ≤ j)
    → get_or (store lsb_first d p n v) j 0 ≡ get_or d j 0
unfolding store
get_or-store_outside true d p n v j h out =
    little_loop-get_or d p v n 0 j (omega arith) ∙ ground arith
get_or-store_outside false d p n v j h out =
    big_loop-get_or d p n v n 0 j (omega arith) h ∙ ground arith

little_loop-length : (d : List ℕ) (p v left i : ℕ) → length (little_loop d p v left i) ≡ length d
unfolding little_loop
little_loop-length d p v zero i = refl
little_loop-length d p v (suc left) i =
    little_loop-length (set d (p + i) (byte v i)) p v left (i + 1) ∙ length-set d (p + i) (byte v i)

big_loop-length : (d : List ℕ) (p n v left i : ℕ) → length (big_loop d p n v left i) ≡ length d
unfolding big_loop
big_loop-length d p n v zero i = refl
big_loop-length d p n v (suc left) i =
    big_loop-length (set d (p + n - 1 - i) (byte v i)) p n v left (i + 1)
    ∙ length-set d (p + n - 1 - i) (byte v i)

pub length-store :
    (lsb_first : Bool) (d : List ℕ) (p n v : ℕ) → length (store lsb_first d p n v) ≡ length d
unfolding store
length-store true d p n v = little_loop-length d p v n 0
length-store false d p n v = big_loop-length d p n v n 0

pub AreBytes-set : (d : List ℕ) (i b : ℕ) → AreBytes d → b < 256 → AreBytes (set d i b)
AreBytes-set [] i b h hb = h
AreBytes-set (x ∷ d) zero b h hb = (hb, h.1)
AreBytes-set (x ∷ d) (suc i) b h hb = (h.0, AreBytes-set d i b h.1 hb)

little_loop-AreBytes :
    (d : List ℕ) (p v left i : ℕ) → AreBytes d → AreBytes (little_loop d p v left i)
unfolding little_loop
little_loop-AreBytes d p v zero i h = h
little_loop-AreBytes d p v (suc left) i h =
    little_loop-AreBytes (set d (p + i) (byte v i)) p v left (i + 1)
      (AreBytes-set d (p + i) (byte v i) h (omega arith))

big_loop-AreBytes :
    (d : List ℕ) (p n v left i : ℕ) → AreBytes d → AreBytes (big_loop d p n v left i)
unfolding big_loop
big_loop-AreBytes d p n v zero i h = h
big_loop-AreBytes d p n v (suc left) i h =
    big_loop-AreBytes (set d (p + n - 1 - i) (byte v i)) p n v left (i + 1)
      (AreBytes-set d (p + n - 1 - i) (byte v i) h (omega arith))

pub store-AreBytes :
    (lsb_first : Bool) (d : List ℕ) (p n v : ℕ) → AreBytes d → AreBytes (store lsb_first d p n v)
unfolding store
store-AreBytes true d p n v h = little_loop-AreBytes d p v n 0 h
store-AreBytes false d p n v h = big_loop-AreBytes d p n v n 0 h
