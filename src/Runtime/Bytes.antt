-- ===== src/Runtime/Bytes.antt =====
-- The loops of `Reader::uint` and `Reader::beginBits` that put bytes together to a word, and what
-- they compute.
use embx.Prelude.{
  ℕ, zero, suc, ◌+◌, ◌*◌, ◌^◌, ◌≤◌, ◌<◌, bit_or, ◌≡◌, refl, ap, ◌∙◌, Bool, true, false, List, [],
  ◌∷◌, arith, if◌then◌else◌, get_or,
}
use embx.Prelude.Bits.{high_or_low, low_or_high, pow_add, pow_le}
use native.Mathlib.Nat.{mod-eq_of_lt}
use embx.Runtime.Host.{word, shl}

-- `for (i = 0; i < n; ++i) v |= uint64_t(d[p + i]) << (8 * i);`
unfoldable pub little_loop : List ℕ → ℕ → ℕ → ℕ → ℕ → ℕ
little_loop d p zero i v = v
little_loop d p (suc left) i v =
    little_loop d p left (i + 1) (bit_or v (shl (get_or d (p + i) 0) (8 * i)))

-- `for (i = 0; i < n; ++i) v = (v << 8) | d[p + i];`
unfoldable pub big_loop : List ℕ → ℕ → ℕ → ℕ → ℕ → ℕ
big_loop d p zero i v = v
big_loop d p (suc left) i v = big_loop d p left (i + 1) (bit_or (shl v 8) (get_or d (p + i) 0))

unfoldable pub assemble : Bool → List ℕ → ℕ → ℕ → ℕ
assemble little d p n = if little then little_loop d p n 0 0 else big_loop d p n 0 0

-- The bytes of `d` from `p` on.
abbrev pub slice : List ℕ → ℕ → ℕ → List ℕ
slice d p zero = []
slice d p (suc n) = get_or d p 0 ∷ slice d (p + 1) n

-- The number that a sequence of bytes stands for, least or most significant byte first.
abbrev pub of_little : List ℕ → ℕ
of_little [] = 0
of_little (b ∷ bs) = b + 256 * of_little bs

abbrev pub of_big_from : ℕ → List ℕ → ℕ
of_big_from acc [] = acc
of_big_from acc (b ∷ bs) = of_big_from (acc * 256 + b) bs

abbrev pub of_big : List ℕ → ℕ
of_big bs = of_big_from 0 bs

abbrev pub of_bytes : Bool → List ℕ → ℕ
of_bytes little bs = if little then of_little bs else of_big bs

abbrev pub AreBytes : List ℕ → Type 0
AreBytes [] = Unit
AreBytes (b ∷ bs) = (b < 256) × AreBytes bs

pub get_or-byte : (d : List ℕ) (i : ℕ) → AreBytes d → get_or d i 0 < 256
get_or-byte [] i h = omega arith
get_or-byte (b ∷ bs) zero h = h.0
get_or-byte (b ∷ bs) (suc i) h = get_or-byte bs i h.1

pub pow-eight_suc : (i : ℕ) → 2 ^ (8 * (i + 1)) ≡ 256 * 2 ^ (8 * i)
pow-eight_suc i = let e : 8 * (i + 1) ≡ 8 + 8 * i = omega arith in rw e (pow_add 8 (8 * i))

below_word : (b i : ℕ) → b < 256 → i < 8 → b * 2 ^ (8 * i) < word
below_word b i hb hi = grind (arith, pow_le (8 * (i + 1)) 64 (omega arith), pow-eight_suc i)

-- One more byte above the ones already there.
shl_byte : (b i : ℕ) → b < 256 → i < 8 → shl b (8 * i) ≡ b * 2 ^ (8 * i)
shl_byte b i hb hi = mod-eq_of_lt (below_word b i hb hi)

little_step :
    (v b i : ℕ)
    → b < 256
    → i < 8
    → v < 2 ^ (8 * i)
    → (bit_or v (shl b (8 * i)) ≡ v + b * 2 ^ (8 * i))
      × (bit_or v (shl b (8 * i)) < 2 ^ (8 * (i + 1)))
little_step v b i hb hi low = (
  rw (shl_byte b i hb hi) (omega (arith, low_or_high (8 * i) b v low)),
  rw (shl_byte b i hb hi) (grind (arith, low_or_high (8 * i) b v low, pow-eight_suc i)),
)

little_loop_lem :
    (d : List ℕ) (p left i v : ℕ)
    → AreBytes d
    → i + left ≤ 8
    → v < 2 ^ (8 * i)
    → little_loop d p left i v ≡ v + 2 ^ (8 * i) * of_little (slice d (p + i) left)
unfolding little_loop
little_loop_lem d p zero i v bytes fits low = omega arith
little_loop_lem d p (suc left) i v bytes fits low =
    let b : ℕ = get_or d (p + i) 0 in
    let (sum, low') = little_step v b i (get_or-byte d (p + i) bytes) (omega arith) low in
    let ih = little_loop_lem d p left (i + 1) (bit_or v (shl b (8 * i))) bytes (omega arith) low' in
    ih ∙ rw slice_index (join _ b (of_little (slice d (p + i + 1) left)) sum)
  where
    slice_index : p + (i + 1) ≡ p + i + 1
    slice_index = omega arith

    join :
        (v' b s : ℕ)
        → v' ≡ v + b * 2 ^ (8 * i)
        → v' + 2 ^ (8 * (i + 1)) * s ≡ v + 2 ^ (8 * i) * (b + 256 * s)
    join v' b s e = omega (arith, ap (λ (t : ℕ). t * s) (pow-eight_suc i))

big_step :
    (v b i : ℕ)
    → b < 256
    → i < 8
    → v < 2 ^ (8 * i)
    → (bit_or (shl v 8) b ≡ v * 256 + b) × (bit_or (shl v 8) b < 2 ^ (8 * (i + 1)))
big_step v b i hb hi low =
    let room : v * 2 ^ 8 < word =
      omega (arith, pow-eight_suc i, pow_le (8 * (i + 1)) 64 (omega arith)) in
    rw (mod-eq_of_lt room, high_or_low 8 v b hb) (omega arith, omega (arith, pow-eight_suc i))

big_loop_lem :
    (d : List ℕ) (p left i v : ℕ)
    → AreBytes d
    → i + left ≤ 8
    → v < 2 ^ (8 * i)
    → big_loop d p left i v ≡ of_big_from v (slice d (p + i) left)
unfolding big_loop
big_loop_lem d p zero i v bytes fits low = refl
big_loop_lem d p (suc left) i v bytes fits low =
    let b : ℕ = get_or d (p + i) 0 in
    let (sum, low') = big_step v b i (get_or-byte d (p + i) bytes) (omega arith) low in
    let e : p + (i + 1) ≡ p + i + 1 = omega arith in
    big_loop_lem d p left (i + 1) (bit_or (shl v 8) b) bytes (omega arith) low' ∙ rw (e, sum)

-- A word of at most eight bytes is the number that the bytes stand for, in either order.
pub assemble_lem :
    (little : Bool) (d : List ℕ) (p n : ℕ)
    → AreBytes d
    → n ≤ 8
    → assemble little d p n ≡ of_bytes little (slice d p n)
unfolding assemble
assemble_lem true d p n bytes fits =
    let e : p + 0 ≡ p = omega arith in
    little_loop_lem d p n 0 0 bytes (omega arith) (omega arith) ∙ rw e (omega arith)
assemble_lem false d p n bytes fits =
    let e : p + 0 ≡ p = omega arith in
    big_loop_lem d p n 0 0 bytes (omega arith) (omega arith) ∙ rw e

of_little-lt : (d : List ℕ) (p n : ℕ) → AreBytes d → of_little (slice d p n) < 2 ^ (8 * n)
of_little-lt d p zero bytes = omega arith
of_little-lt d p (suc n) bytes =
    let e : 8 * suc n ≡ 8 * (n + 1) = omega arith in
    rw e (omega (arith, pow-eight_suc n, of_little-lt d (p + 1) n bytes, get_or-byte d p bytes))

of_big_from-lt :
    (d : List ℕ) (p n acc : ℕ)
    → AreBytes d
    → of_big_from acc (slice d p n) < (acc + 1) * 2 ^ (8 * n)
of_big_from-lt d p zero acc bytes = omega arith
of_big_from-lt d p (suc n) acc bytes =
    let e : 8 * suc n ≡ 8 * (n + 1) = omega arith in
    let b : ℕ = get_or d p 0 in
    let hb : b < 256 = get_or-byte d p bytes in
    let ih = of_big_from-lt d (p + 1) n (acc * 256 + b) bytes in
    let top : (acc * 256 + b + 1) * 2 ^ (8 * n) ≤ (acc + 1) * 256 * 2 ^ (8 * n) = grind arith in
    rw e (omega (arith, ih, top, ap (λ (t : ℕ). (acc + 1) * t) (pow-eight_suc n)))

pub of_bytes-lt :
    (little : Bool) (d : List ℕ) (p n : ℕ)
    → AreBytes d
    → of_bytes little (slice d p n) < 2 ^ (8 * n)
of_bytes-lt true d p n bytes = of_little-lt d p n bytes
of_bytes-lt false d p n bytes = omega (arith, of_big_from-lt d p n 0 bytes)
