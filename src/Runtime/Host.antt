-- ===== src/Runtime/Host.antt =====
-- The machine words that the runtime counts in: `size_t` and `uint64_t` have 64 bits, `int64_t` is
-- two's complement. A word is a native number; each wrap of the source is written out.
use embx.Prelude.{
  ℕ, ◌+◌, ◌-◌, ◌*◌, ◌/◌, ◌%◌, ◌^◌, ◌<◌, ◌≡◌, String, Bool, true, false, arith, ltb, if◌then◌else◌,
}
use embx.Prelude.Int.{ℤ, pos, negsuc}
use embx.Prelude.Result.{Result, ok, err}

-- `runtime::Endian`; `plan::Endian` has the same three values.
pub data Endian : Type 0 where
  little big native : Endian

abbrev pub word : ℕ
word = 2 ^ 64

abbrev pub size_max : ℕ
size_max = 2 ^ 64 - 1

-- `a - b` on `size_t`, which wraps.
abbrev pub sub_size : ℕ → ℕ → ℕ
sub_size a b = (a + word - b) % word

-- `x << k` on `uint64_t`, for k < 64.
abbrev pub shl : ℕ → ℕ → ℕ
shl x k = x * 2 ^ k % word

abbrev pub shr : ℕ → ℕ → ℕ
shr x k = x / 2 ^ k

-- `static_cast<int64_t>` of a `uint64_t`, and back.
abbrev pub to_int64 : ℕ → ℤ
to_int64 w = if ltb w (2 ^ 63) then pos w else negsuc (word - w - 1)

abbrev pub to_uint64 : ℤ → ℕ
to_uint64 (pos n) = n % word
to_uint64 (negsuc n) = (word - 1 - n % word) % word

-- `checkedAdd` of Runtime.cpp.
unfoldable pub checked_add : ℕ → ℕ → String → Result ℕ
checked_add a b what = if ltb (size_max - a) b then err what else ok (a + b)

-- `little()`: the byte order in force on a host of which `host_little` says the order.
abbrev pub is_little : Bool → Endian → Bool
is_little host_little little = true
is_little host_little big = false
is_little host_little native = host_little

pub to_int64-to_uint64 : (w : ℕ) → w < word → to_uint64 (to_int64 w) ≡ w
to_int64-to_uint64 w h = ground arith
