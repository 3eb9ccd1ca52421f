-- ===== src/Runtime/Reader.antt =====
-- runtime/Runtime.h and Runtime.cpp: `class Reader`, a bounded view of the input with a position, a
-- stack of limits and an open bit container. A method that throws does so before its first
-- assignment, so it returns the new reader or the message of the exception.
pub mod Call
pub mod Wf
pub mod Values
pub mod Restore
use embx.Prelude.{
  ℕ, zero, suc, ◌+◌, ◌-◌, ◌*◌, ◌/◌, ◌%◌, ◌^◌, bit_and, bit_or, String, Bool, true, false, not, ◌||◌,
  List, [], ◌∷◌, ltb, leb, ◌==◌, if◌then◌else◌, length, take, drop,
}
use embx.Prelude.Int.{ℤ}
use embx.Prelude.Result.{Result, ok, err, ◌>>=◌, ◌>>◌, refuse_if}
use embx.Runtime.Host.{
  Endian, little, size_max, sub_size, shr, word, to_int64, checked_add, is_little,
}
use embx.Runtime.Bytes.{assemble}

-- `limits` has the entry that was pushed last at its head.
pub record Reader : Type 0 where
  pub d : List ℕ
  pub p : ℕ
  pub limit : ℕ
  pub e : Endian
  pub limits : List ℕ
  pub bit_container : ℕ
  pub bit_remaining : ℕ

-- `Reader::Reader`
unfoldable pub make : List ℕ → Reader
make d = record {
  d = d;
  p = 0;
  limit = length d;
  e = little;
  limits = [];
  bit_container = 0;
  bit_remaining = 0;
}

unfoldable pub remaining : Reader → ℕ
remaining r = sub_size r.limit r.p

unfoldable pub bounded : Reader → Bool
bounded r = ltb r.limit (length r.d)

unfoldable pub set_endian : Endian → Reader → Reader
set_endian e r = record r { e = e }

unfoldable pub seek : ℕ → Reader → Result Reader
seek p r = if ltb r.limit p then err "seek beyond reader limit" else ok (record r { p = p })

unfoldable pub seek_root : ℕ → Reader → Result Reader
seek_root p r = do
  refuse_if (ltb (length r.d) p) "root seek beyond input"
  refuse_if (ltb r.limit p) "root seek beyond active reader limit"
  ok (record r { p = p })

unfoldable pub align : ℕ → Reader → Result Reader
align a r = do
  refuse_if (a == 0) "alignment is zero"
  let rem = r.p % a
  let delta = if rem == 0 then 0 else a - rem
  target ← checked_add r.p delta "alignment overflow"
  seek target r

unfoldable pub bytes : ℕ → Reader → Result (List ℕ × Reader)
bytes n r = do
  refuse_if (ltb (remaining r) n) "byte read beyond reader limit"
  ok (take n (drop r.p r.d), record r { p = r.p + n })

unfoldable pub end_bits : Reader → Result Reader
end_bits r = do
  refuse_if (ltb 0 r.bit_remaining) "bit container not fully consumed"
  ok (record r { bit_container = 0 })

unfoldable pub push_limit_end : ℕ → Reader → Result Reader
push_limit_end absolute_end r = do
  refuse_if (ltb absolute_end r.p) "block limit precedes reader position"
  refuse_if (ltb r.limit absolute_end) "block exceeds reader limit"
  ok (record r { limits = r.limit ∷ r.limits; limit = absolute_end })

unfoldable pub push_limit : ℕ → Reader → Result Reader
push_limit n r = do end ← checked_add r.p n "block size overflow"; push_limit_end end r

unfoldable pub pop_to : List ℕ → Reader → Result Reader
pop_to [] r = err "no active reader limit"
pop_to (outer ∷ rest) r =
    if ltb r.limit r.p
    then err "reader position exceeds active limit"
    else ok (record r { limit = outer; limits = rest })

unfoldable pub pop_limit : Reader → Result Reader
pop_limit r = pop_to r.limits r

-- `~uint64_t(0) << bits_n` has `bits_n` zeros below ones.
unfoldable pub sign_extend : ℕ → ℕ → ℤ
sign_extend n u =
    if n == 8
    then to_int64 u
    else if bit_and u (2 ^ (8 * n - 1)) == 0
    then to_int64 u
    else to_int64 (bit_or u (word - 2 ^ (8 * n)))

-- The methods that read words take the byte order of the host as `host_little`.
module _ (host_little : Bool) where
  unfoldable pub uint : ℕ → Reader → Result (ℕ × Reader)
  uint n r = do
    refuse_if (n == 0 || ltb 8 n) "integer width must be 1..8 bytes"
    refuse_if (ltb (remaining r) n) "integer read beyond reader limit"
    ok (assemble (is_little host_little r.e) r.d r.p n, record r { p = r.p + n })

  unfoldable pub sint : ℕ → Reader → Result (ℤ × Reader)
  sint n r = do (u, r') ← uint n r; ok (sign_extend n u, r')

  unfoldable pub begin_bits : ℕ → Reader → Result Reader
  begin_bits total_bits r = do
    refuse_if (ltb 0 r.bit_remaining) "bit container already active"
    refuse_if (total_bits == 0 || ltb 64 total_bits) "bit container width must be 1..64"
    let bytes_needed = (total_bits + 7) / 8
    refuse_if (ltb (remaining r) bytes_needed) "bit container read beyond reader limit"
    let whole = assemble (is_little host_little r.e) r.d r.p bytes_needed
    let container_bits = bytes_needed * 8
    ok (record r {
      p = r.p + bytes_needed;
      bit_container =
          if ltb total_bits container_bits then shr whole (container_bits - total_bits) else whole;
      bit_remaining = total_bits;
    })

  unfoldable pub bits : ℕ → Reader → Result (ℕ × Reader)
  bits width r = do
    opened ← if r.bit_remaining == 0 then begin_bits width r else ok r
    refuse_if (width == 0 || ltb 64 width) "bit width must be 1..64"
    refuse_if (ltb opened.bit_remaining width) "bit read exceeds active bit container"
    let shift = opened.bit_remaining - width
    let mask = if width == 64 then size_max else 2 ^ width - 1
    ok (bit_and (shr opened.bit_container shift) mask, record opened { bit_remaining = shift })

-- `Reader::State`, `state()` and `restore(const State&)`.
pub record State : Type 0 where
  pub pos : ℕ
  pub limit : ℕ
  pub endian : Endian
  pub limits : List ℕ
  pub bit_container : ℕ
  pub bit_remaining : ℕ

unfoldable pub state : Reader → State
state r = record {
  pos = r.p;
  limit = r.limit;
  endian = r.e;
  limits = r.limits;
  bit_container = r.bit_container;
  bit_remaining = r.bit_remaining;
}

-- The loop over `limits.rbegin()`: the entries from the last pushed to the first.
unfoldable pub limits_ok : ℕ → ℕ → List ℕ → Bool
limits_ok size previous [] = true
limits_ok size previous (l ∷ ls) =
    if ltb l previous || ltb size l then false else limits_ok size l ls

-- `limits.front()` is the entry that was pushed first.
unfoldable pub front : ℕ → List ℕ → ℕ
front l [] = l
front l (m ∷ ls) = front m ls

unfoldable pub check_limits : ℕ → State → List ℕ → Result (Unit {0})
check_limits size s [] = refuse_if (not (s.limit == size)) "invalid root reader limit"
check_limits size s (l ∷ ls) = do
  refuse_if (ltb (front l ls) s.pos) "reader position exceeds innermost limit"
  refuse_if (not (l == size)) "invalid reader limit root"

unfoldable pub restore : State → Reader → Result Reader
restore s r = do
  refuse_if (ltb s.limit s.pos || ltb (length r.d) s.limit) "invalid reader state"
  refuse_if (ltb 64 s.bit_remaining) "invalid reader bit state"
  refuse_if (not (limits_ok (length r.d) s.limit s.limits)) "invalid reader limit stack"
  check_limits (length r.d) s s.limits
  ok (record r {
    p = s.pos;
    limit = s.limit;
    e = s.endian;
    limits = s.limits;
    bit_container = s.bit_container;
    bit_remaining = s.bit_remaining;
  })
