-- ===== src/Encoder/Writer.antt =====
-- encoder/Encoder.cpp: `class Writer`, the growing output with a position, a stack of limits and an
-- open bit container. A method that throws does so before its first assignment.
pub mod Stored
pub mod Call
pub mod Wf
pub mod Runs
use embx.Prelude.{
  ℕ, zero, suc, ◌+◌, ◌-◌, ◌*◌, ◌/◌, ◌%◌, ◌^◌, max, bit_or, String, Bool, true, false, not, ◌||◌,
  ◌&&◌, List, [], ◌∷◌, ◌++◌, ltb, leb, ◌==◌, if◌then◌else◌, length, take, set, replicate,
}
use embx.Prelude.Int.{ℤ}
use embx.Prelude.Result.{Result, ok, err, ◌>>=◌, ◌>>◌, refuse_if}
use embx.Runtime.Host.{Endian, little, size_max, sub_size, shl, shr, to_uint64, is_little}

-- `limits` has the entry that was pushed last at its head.
pub record Writer : Type 0 where
  pub d : List ℕ
  pub p : ℕ
  pub e : Endian
  pub limit : ℕ
  pub limits : List ℕ
  pub bits : ℕ
  pub bit_count : ℕ
  pub bit_total : ℕ

unfoldable pub make : Writer
make = record {
  d = [];
  p = 0;
  e = little;
  limit = size_max;
  limits = [];
  bits = 0;
  bit_count = 0;
  bit_total = 0;
}

-- `d_.resize(n, 0)`
unfoldable pub resize : ℕ → List ℕ → List ℕ
resize n d = take n d ++ replicate (n - length d) 0

-- `if (d_.size() < n) d_.resize(n);`
unfoldable pub grow : ℕ → List ℕ → List ℕ
grow n d = if ltb (length d) n then resize n d else d

-- `std::copy(b.begin(), b.end(), d_.begin() + p)`, into a vector that is long enough.
unfoldable pub copy_at : List ℕ → ℕ → List ℕ → List ℕ
copy_at d p [] = d
copy_at d p (b ∷ bs) = copy_at (set d p b) (p + 1) bs

unfoldable pub ensure : ℕ → Writer → Result (Unit {0})
ensure n w = refuse_if (ltb (sub_size w.limit w.p) n) "write beyond active limit"

unfoldable pub set_endian : Endian → Writer → Writer
set_endian e w = record w { e = e }

unfoldable pub move_to : ℕ → Writer → Writer
move_to p w = record w { d = grow p w.d; p = p }

unfoldable pub set_pos : ℕ → Writer → Result Writer
set_pos p w = do refuse_if (ltb w.limit p) "callback position beyond writer limit"; ok (move_to p w)

unfoldable pub seek : ℕ → Writer → Result Writer
seek p w = do refuse_if (ltb w.limit p) "seek beyond writer limit"; ok (move_to p w)

unfoldable pub seek_root : ℕ → Writer → Result Writer
seek_root p w = do refuse_if (ltb w.limit p) "root seek beyond writer limit"; ok (move_to p w)

-- Where the output is too short, `resize` only appends; otherwise `std::fill` overwrites.
unfoldable pub write_zeros : ℕ → Writer → Result Writer
write_zeros n w = do
  ensure n w
  refuse_if (ltb (size_max - w.p) n) "write position overflow"
  let d =
      if ltb (length w.d) (w.p + n) then resize (w.p + n) w.d else copy_at w.d w.p (replicate n 0)
  ok (record w { d = d; p = w.p + n })

unfoldable pub align : ℕ → Writer → Result Writer
align a w = do
  refuse_if (a == 0) "alignment is zero"
  let rem = w.p % a
  write_zeros (if rem == 0 then 0 else a - rem) w

unfoldable pub bytes : List ℕ → Writer → Result Writer
bytes b w = do
  ensure (length b) w
  ok (record w { d = copy_at (grow (w.p + length b) w.d) w.p b; p = w.p + length b })

-- `for (i = 0; i < n; ++i) d_[p_ + i] = uint8_t(v >> (8 * i));`
unfoldable pub little_loop : List ℕ → ℕ → ℕ → ℕ → ℕ → List ℕ
little_loop d p v zero i = d
little_loop d p v (suc left) i = little_loop (set d (p + i) (shr v (8 * i) % 256)) p v left (i + 1)

-- `for (i = 0; i < n; ++i) d_[p_ + n - 1 - i] = uint8_t(v >> (8 * i));`
unfoldable pub big_loop : List ℕ → ℕ → ℕ → ℕ → ℕ → ℕ → List ℕ
big_loop d p n v zero i = d
big_loop d p n v (suc left) i =
    big_loop (set d (p + n - 1 - i) (shr v (8 * i) % 256)) p n v left (i + 1)

unfoldable pub store : Bool → List ℕ → ℕ → ℕ → ℕ → List ℕ
store lsb_first d p n v = if lsb_first then little_loop d p v n 0 else big_loop d p n v n 0

unfoldable pub begin_bits : ℕ → Writer → Result Writer
begin_bits total w = do
  refuse_if (ltb 0 w.bit_count) "bit container already active"
  refuse_if (total == 0 || ltb 64 total) "bit container width must be 1..64"
  ok (record w { bit_total = total; bit_count = 0; bits = 0 })

unfoldable pub bit : ℕ → ℕ → Writer → Result Writer
bit v width w = do
  let room = sub_size w.bit_total w.bit_count
  refuse_if (w.bit_total == 0) "no active bit container"
  refuse_if (width == 0 || ltb room width) "bit write exceeds active bit container"
  refuse_if (ltb width 64 && leb (2 ^ width) v) "bit value exceeds field width"
  let shift = room - width
  ok (record w { bits = bit_or w.bits (shl v shift); bit_count = w.bit_count + width })

unfoldable pub push_limit : ℕ → Writer → Result Writer
push_limit n w = do
  refuse_if (ltb (sub_size w.limit w.p) n) "block exceeds writer limit"
  ok (record w { limits = w.limit ∷ w.limits; limit = w.p + n })

unfoldable pub pop_to : List ℕ → Writer → Result Writer
pop_to [] w = err "no active writer limit"
pop_to (outer ∷ rest) w = ok (record w { limit = outer; limits = rest })

unfoldable pub pop_limit : Writer → Result Writer
pop_limit w = pop_to w.limits w

unfoldable pub truncate : ℕ → Writer → Writer
truncate n w = record w { d = resize n w.d; p = if ltb n w.p then n else w.p }

-- What `endBits` stores: the fields, moved to the most significant bits of the bytes.
abbrev pub closing : Writer → ℕ
closing w =
    let cb = (w.bit_total + 7) / 8 * 8 in
    if ltb w.bit_total cb then shl w.bits (cb - w.bit_total) else w.bits

module _ (host_little : Bool) where
  unfoldable pub uint : ℕ → ℕ → Writer → Result Writer
  uint v n w = do
    refuse_if (n == 0 || ltb 8 n) "integer width must be 1..8 bytes"
    ensure n w
    let d = store (is_little host_little w.e) (grow (w.p + n) w.d) w.p n v
    ok (record w { d = d; p = w.p + n })

  unfoldable pub sint : ℤ → ℕ → Writer → Result Writer
  sint v n w = uint (to_uint64 v) n w

  unfoldable pub end_bits : Writer → Result Writer
  end_bits w = do
    refuse_if (w.bit_total == 0 || not (w.bit_count == w.bit_total))
        "bit container not fully written"
    let nb = (w.bit_total + 7) / 8
    ensure nb w
    let d = store (is_little host_little w.e) (grow (w.p + nb) w.d) w.p nb (closing w)
    ok (record w { d = d; p = w.p + nb; bit_total = 0; bit_count = 0; bits = 0 })
