-- ===== src/Runtime/Reader/Values.antt =====
-- runtime/Runtime.cpp: what the reads of a well-formed reader return.
use embx.Prelude.{
  ℕ, zero, suc, ◌+◌, ◌-◌, ◌*◌, ◌/◌, ◌^◌, ◌≤◌, ◌<◌, bit_and, bit_or, ◌≡◌, refl, sym, ==_iff, ap, ◌∙◌,
  Bool-cases, Bool, ◌||◌, inl, inr, arith, ltb, ◌==◌, if◌then◌else◌,
}
use embx.Prelude.Int.{ℤ, pos, negsuc}
use embx.Prelude.Bits.{and_bit, low_or_high, one-le-two_pow, pow-suc_two, pow_add, pow_le}
use native.Mathlib.Nat.{div-eq_of_lt, div-lt_iff_lt-mul, mod-eq_of_lt}
use embx.Prelude.Result.{Result, ok, err, ◌>>=◌}
use embx.Runtime.Host.{word, is_little, to_int64}
use embx.Runtime.Bytes.{slice, of_bytes, assemble_lem, of_bytes-lt}
use embx.Runtime.Reader.Wf.{IsWf, remaining_lem}
use embx.Runtime.Reader.{Reader, uint, sign_extend, sint}

-- What `Reader::uint` does: the number that the next bytes stand for in the byte order in force, or
-- the exception for a width or a length that does not fit.
abbrev pub uint_outcome : Bool → ℕ → Reader → Result (ℕ × Reader)
uint_outcome host_little n r =
    if n == 0 || ltb 8 n
    then err "integer width must be 1..8 bytes"
    else if ltb r.limit (r.p + n)
    then err "integer read beyond reader limit"
    else ok (of_bytes (is_little host_little r.e) (slice r.d r.p n), record r { p = r.p + n })

-- On a well-formed reader `uint n` throws for a width outside 1..8 and for a width that passes the
-- limit, and otherwise returns the number that the next n bytes stand for and moves past them.
pub uint-eq :
    (host_little : Bool) (n : ℕ) {r : Reader}
    → IsWf r
    → uint host_little n r ≡ uint_outcome host_little n r
unfolding uint
uint-eq host_little n {r} w =
    ground (arith, remaining_lem w, assemble_lem (is_little host_little r.e) r.d r.p n w.contents)

-- The two's complement reading of `8 * n` bits.
abbrev pub signed : ℕ → ℕ → ℤ
signed n u = if ltb u (2 ^ (8 * n - 1)) then pos u else negsuc (2 ^ (8 * n) - u - 1)

mul-div_bounds : (u m : ℕ) → 1 ≤ m → (u / m ≡ 0 → u < m) × (u < m → u / m ≡ 0)
mul-div_bounds u m h =
    (λ e. omega (arith, (div-lt_iff_lt-mul {x = u} {y = 1} h).0 (omega arith)), div-eq_of_lt)

-- At a width of one to seven bytes the test of the sign bit and the mask of ones are those of a
-- number below `2 ^ (8 * n)`.
sign_bit : (k u : ℕ) → u < 2 ^ suc k → bit_and u (2 ^ k) ≡ u / 2 ^ k * 2 ^ k
sign_bit k u h =
    let top : u / 2 ^ k < 2 =
      (div-lt_iff_lt-mul (one-le-two_pow k)).1 (omega (arith, pow-suc_two k)) in
    and_bit k u ∙ ap (λ (t : ℕ). t * 2 ^ k) (mod-eq_of_lt top)

sub_one_mul : (a b : ℕ) → 1 ≤ a → (a - 1) * b ≡ a * b - b
sub_one_mul zero b h = absurd (omega arith)
sub_one_mul (suc a) b h = let e : suc a - 1 ≡ a = omega arith in rw e (omega arith)

sign_ones : (k u : ℕ) → k ≤ 64 → u < 2 ^ k → bit_or u (word - 2 ^ k) ≡ word - 2 ^ k + u
sign_ones k u h l =
    let e : 64 - k + k ≡ 64 = omega arith in
    let split : word ≡ 2 ^ (64 - k) * 2 ^ k = rw (← pow_add (64 - k) k, e) refl in
    let ones : word - 2 ^ k ≡ (2 ^ (64 - k) - 1) * 2 ^ k =
      rw split (sym (sub_one_mul (2 ^ (64 - k)) (2 ^ k) (one-le-two_pow (64 - k)))) in
    rw (ones, low_or_high k (2 ^ (64 - k) - 1) u l)

sign_extend_narrow :
    (k u : ℕ)
    → k < 63
    → u < 2 ^ suc k
    → (if bit_and u (2 ^ k) == 0 then to_int64 u else to_int64 (bit_or u (word - 2 ^ suc k)))
      ≡ (if ltb u (2 ^ k) then pos u else negsuc (2 ^ suc k - u - 1))
sign_extend_narrow k u h l = ground (
  arith,
  sign_bit k u l,
  sign_ones (suc k) u (omega arith) l,
  pow_le (suc k) 63 (omega arith),
  pow-suc_two k,
  one-le-two_pow k,
  mul-div_bounds u (2 ^ k) (one-le-two_pow k),
)

-- The sign extension of `Reader::sint` is the two's complement reading at every width.
sign_extend-eq : (n u : ℕ) → 0 < n → n ≤ 8 → u < 2 ^ (8 * n) → sign_extend n u ≡ signed n u
unfolding sign_extend
sign_extend-eq n u h k l = elim (Bool-cases (n == 8)) [
  | inl e ↦ rw ((==_iff n 8).0 e)
  | inr ne ↦
      let e : suc (8 * n - 1) ≡ 8 * n = omega arith in
      rw ne (rw e at (sign_extend_narrow (8 * n - 1) u (ground arith) (rw e l)))
]

-- What `Reader::sint` does.
abbrev pub sint_outcome : Bool → ℕ → Reader → Result (ℤ × Reader)
sint_outcome host_little n r = uint_outcome host_little n r >>= λ (u, r'). ok (signed n u, r')

-- On a well-formed reader `sint n` throws as `uint n` does, and otherwise returns the number whose
-- two's complement in `8 * n` bits the next n bytes hold, and moves past them.
pub sint-eq :
    (host_little : Bool) (n : ℕ) {r : Reader}
    → IsWf r
    → sint host_little n r ≡ sint_outcome host_little n r
unfolding sint
sint-eq host_little n {r} w =
    let u : ℕ = of_bytes (is_little host_little r.e) (slice r.d r.p n) in
    rw (uint-eq host_little n w) (
      ground
        (arith, sign_extend-eq n u, of_bytes-lt (is_little host_little r.e) r.d r.p n w.contents))
