-- ===== src/Codec/Words.antt =====
-- `Writer::uint` and `Writer::sint` of encoder/Encoder.cpp against `Reader::uint` and `Reader::sint`
-- of runtime/Runtime.cpp: a word that was written is the word that is read.
use native.Mathlib.Nat.{mod-eq_of_lt, mul-add-mod_self_right}
use embx.Prelude.{
  ℕ, zero, suc, ◌%◌, ◌+◌, ◌-◌, ◌*◌, ◌^◌, ◌≤◌, ◌<◌, ◌≡◌, Bool, ◌||◌, List, arith, ltb, ◌==◌, length,
}
use embx.Prelude.Int.{ℤ, pos, negsuc}
use embx.Prelude.Bits.{pow_le, pow_add, pow-suc_two, one-le-two_pow}
use embx.Prelude.Result.{ok, >>=-eq-ok, refuse_if-eq-ok}
use embx.Runtime.Host.{word, is_little, to_uint64}
use embx.Runtime.Bytes.{slice, of_bytes}
use embx.Runtime.Reader
use embx.Runtime.Reader.{Reader}
use embx.Runtime.Reader.Wf.{IsWf}
use embx.Runtime.Reader.Values.{uint-eq, sint-eq, signed}
use embx.Encoder.Writer
use embx.Encoder.Writer.{Writer, store, grow}
use embx.Encoder.Writer.Wf.{length-grow}
use embx.Encoder.Writer.Stored.{of_bytes-store}

-- A reader that stands where the writer `w` stood, over the output of `w'`.
pub record Follows (r : Reader) (w w' : Writer) : Type 0 where
  pub well_formed : IsWf r
  pub same_bytes : r.d ≡ w'.d
  pub same_place : r.p ≡ w.p
  pub same_order : r.e ≡ w.e
  pub whole : w'.p ≤ r.limit

pub record Stored (lsb_first : Bool) (v n : ℕ) (w w' : Writer) : Type 0 where
  pub size : 0 < n
  pub small : n ≤ 8
  pub advanced : w'.p ≡ w.p + n
  pub found : of_bytes lsb_first (slice w'.d w.p n) ≡ v % 2 ^ (8 * n)

uint-Stored :
    (host_little : Bool) (v n : ℕ) {w w' : Writer}
    → Writer.uint host_little v n w ≡ ok w'
    → Stored (is_little host_little w.e) v n w w'
unfolding Writer.uint
uint-Stored host_little v n {w} {w'} h =
    let (width, rest) = refuse_if-eq-ok (n == 0 || ltb 8 n) _ _ h in
    let (u, _, done) = >>=-eq-ok (Writer.ensure n w) _ rest in
    let d : List ℕ = grow (w.p + n) w.d in
    let long : w.p + n ≤ length d = omega (arith, length-grow (w.p + n) w.d) in
    let bytes : w'.d ≡ store (is_little host_little w.e) d w.p n v = ground arith in
    record {
      size = ground arith;
      small = ground arith;
      advanced = ground arith;
      found = rw bytes (of_bytes-store (is_little host_little w.e) d w.p n v long);
    }

-- A value that fits n bytes and was written is read back by a reader that stands at the same place
-- of the output, in the same byte order, and the reader then stands where the writer stood.
pub read-write_uint :
    (host_little : Bool) (v n : ℕ) (w w' : Writer) (r : Reader)
    → v < 2 ^ (8 * n)
    → Writer.uint host_little v n w ≡ ok w'
    → Follows r w w'
    → Reader.uint host_little n r ≡ ok (v, record r { p = w'.p })
read-write_uint host_little v n w w' r fits h f =
    let s = uint-Stored host_little v n h in
    rw
      (
        uint-eq host_little n f.well_formed,
        f.same_bytes,
        f.same_place,
        f.same_order,
        s.found,
        mod-eq_of_lt fits,
      )
      (ground (arith, s.size, s.small, s.advanced, f.whole))

-- The numbers that n bytes hold in two's complement.
abbrev pub FitsSigned : ℕ → ℤ → Type 0
FitsSigned n (pos k) = k < 2 ^ (8 * n - 1)
FitsSigned n (negsuc k) = k < 2 ^ (8 * n - 1)

bytes_split :
    (n : ℕ)
    → 0 < n
    → n ≤ 8
    → (2 ^ (8 * n) ≡ 2 * 2 ^ (8 * n - 1)) × (word ≡ 2 ^ (64 - 8 * n) * 2 ^ (8 * n))
bytes_split n positive small =
    let e : suc (8 * n - 1) ≡ 8 * n = omega arith in
    let f : 64 - 8 * n + 8 * n ≡ 64 = omega arith in
    (rw e at (pow-suc_two (8 * n - 1)), rw f at (pow_add (64 - 8 * n) (8 * n)))

low_of_negative : (q m k : ℕ) → 1 ≤ q → k < m → (q * m - 1 - k) % m ≡ m - 1 - k
low_of_negative zero m k h l = absurd (omega arith)
low_of_negative (suc q) m k h l =
    let e : suc q * m - 1 - k ≡ q * m + (m - 1 - k) = omega arith in
    rw (e, mul-add-mod_self_right q m (m - 1 - k)) (mod-eq_of_lt (omega arith))

signed-to_uint64 :
    (n : ℕ) (v : ℤ) → 0 < n → n ≤ 8 → FitsSigned n v → signed n (to_uint64 v % 2 ^ (8 * n)) ≡ v
signed-to_uint64 n (pos k) positive small fits =
    let (half, split) = bytes_split n positive small in
    let in_word : k < word = omega (arith, half, pow_le (8 * n) 64 (omega arith)) in
    let in_bytes : k < 2 ^ (8 * n) = omega (arith, half) in
    rw (mod-eq_of_lt in_word, mod-eq_of_lt in_bytes) (ground arith)
signed-to_uint64 n (negsuc k) positive small fits =
    let (half, split) = bytes_split n positive small in
    let in_word : k < word = omega (arith, half, pow_le (8 * n) 64 (omega arith)) in
    let in_bytes : k < 2 ^ (8 * n) = omega (arith, half) in
    let wrapped : to_uint64 (negsuc k) ≡ word - 1 - k = rw (mod-eq_of_lt in_word) (omega arith) in
    let low : (word - 1 - k) % 2 ^ (8 * n) ≡ 2 ^ (8 * n) - 1 - k =
      rw (← split) at (
        low_of_negative (2 ^ (64 - 8 * n)) (2 ^ (8 * n)) k (one-le-two_pow (64 - 8 * n))
          in_bytes) in
    rw (wrapped, low) (ground (arith, half))

-- A signed number in the range of n bytes that was written is read back by a reader at its place.
pub read-write_sint :
    (host_little : Bool) (v : ℤ) (n : ℕ) (w w' : Writer) (r : Reader)
    → FitsSigned n v
    → Writer.sint host_little v n w ≡ ok w'
    → Follows r w w'
    → Reader.sint host_little n r ≡ ok (v, record r { p = w'.p })
unfolding Writer.sint
read-write_sint host_little v n w w' r fits h f =
    let s = uint-Stored host_little (to_uint64 v) n h in
    rw (sint-eq host_little n f.well_formed, f.same_bytes, f.same_place, f.same_order, s.found)
      (ground
        (arith, s.size, s.small, s.advanced, f.whole, signed-to_uint64 n v s.size s.small fits))
