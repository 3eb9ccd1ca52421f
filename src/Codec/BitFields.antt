-- ===== src/Codec/BitFields.antt =====
-- `Writer::bit` of encoder/Encoder.cpp against `Reader::bits` of runtime/Runtime.cpp.
use native.Mathlib.Nat.{mod-eq_of_lt, mod-lt, mul_comm, mul-add-div_right, div-eq_of_lt}
use embx.Prelude.{
  ℕ, ◌+◌, ◌-◌, ◌*◌, ◌/◌, ◌%◌, ◌^◌, ◌≤◌, ◌<◌, bit_or, bit_and, inl, inr, Bool-cases, ==_iff, ◌≡◌,
  sym, ap, ◌∙◌, Bool, List, [], ◌∷◌, map, arith, ◌==◌, if◌then◌else◌,
}
use embx.Prelude.Bits.{mod-mul, high_or_low, pow_add, pow_le, one-le-two_pow, and_mask}
use embx.Prelude.Result.{Result, ok, ◌>>=◌}
use embx.Runtime.Host.{size_max, word, shl, shr, sub_size}
use embx.Encoder.Writer
use embx.Encoder.Writer.{Writer}
use embx.Runtime.Reader
use embx.Runtime.Reader.{Reader}

-- A field: its value and its width.
abbrev pub BitField : Type 0
BitField = ℕ × ℕ

-- A client that writes one field after the other, and one that reads as many.
unfoldable pub write_fields : List BitField → Writer → Result Writer
write_fields [] w = ok w
write_fields ((v, width) ∷ fs) w = do w' ← Writer.bit v width w; write_fields fs w'

unfoldable pub read_fields : Bool → List ℕ → Reader → Result (List ℕ × Reader)
read_fields host_little [] r = ok ([], r)
read_fields host_little (width ∷ ws) r = do
  (v, r') ← Reader.bits host_little width r
  (vs, r'') ← read_fields host_little ws r'
  ok (v ∷ vs, r'')

-- The number that the fields make in the `room` low bits of a container, the first field on top.
abbrev pub pack : List BitField → ℕ → ℕ
pack [] room = 0
pack ((v, width) ∷ fs) room = v * 2 ^ (room - width) + pack fs (room - width)

-- The fields fill `room` bits exactly, and each value fits its width.
abbrev pub Fill : List BitField → ℕ → Type 0
Fill [] room = room ≡ 0
Fill ((v, width) ∷ fs) room =
    (0 < width) × (width ≤ room) × (v < 2 ^ width) × Fill fs (room - width)

-- An open container of the writer: its unwritten low bits are zero.
pub record IsOpen (w : Writer) : Type 0 where
  pub top : ℕ
  pub total : w.bit_total ≤ 64
  pub some_total : 0 < w.bit_total
  pub count : w.bit_count ≤ w.bit_total
  pub zeros : w.bits ≡ top * 2 ^ (w.bit_total - w.bit_count)

pow_split : (room width : ℕ) → width ≤ room → 2 ^ room ≡ 2 ^ width * 2 ^ (room - width)
pow_split room width h =
    let e : width + (room - width) ≡ room = omega arith in rw e at (pow_add width (room - width))

field_below : (v room width : ℕ) → width ≤ room → v < 2 ^ width → v * 2 ^ (room - width) < 2 ^ room
field_below v room width h fits =
    rw (pow_split room width h) (grind (arith, one-le-two_pow (room - width)))

abbrev with_field : Writer → ℕ → ℕ → Writer
with_field w v width = record w {
  bits = w.bits + v * 2 ^ (w.bit_total - w.bit_count - width);
  bit_count = w.bit_count + width;
}

or_field :
    (w : Writer) (v width : ℕ)
    → IsOpen w
    → width ≤ w.bit_total - w.bit_count
    → v < 2 ^ width
    → bit_or w.bits (shl v (w.bit_total - w.bit_count - width))
      ≡ w.bits + v * 2 ^ (w.bit_total - w.bit_count - width)
or_field w v width o fits value =
    let room : ℕ = w.bit_total - w.bit_count in
    let below = field_below v room width fits value in
    let in_word : v * 2 ^ (room - width) < word =
      omega (arith, o.total, below, pow_le room 64 (omega (arith, o.total))) in
    rw (mod-eq_of_lt in_word, o.zeros) (high_or_low room o.top (v * 2 ^ (room - width)) below)

-- A value that fits its width, and a width that fits the room, is put below the bits that are there.
bit-with_field :
    (w : Writer) (v width : ℕ)
    → IsOpen w
    → 0 < width
    → width ≤ w.bit_total - w.bit_count
    → v < 2 ^ width
    → Writer.bit v width w ≡ ok (with_field w v width)
unfolding Writer.bit
bit-with_field w v width o positive fits value =
    let room : sub_size w.bit_total w.bit_count ≡ w.bit_total - w.bit_count =
      omega (arith, o.total, o.count) in
    rw room (ground (arith, o.total, o.count, o.some_total, or_field w v width o fits value))

with_field-IsOpen :
    (w : Writer) (v width : ℕ)
    → IsOpen w
    → width ≤ w.bit_total - w.bit_count
    → IsOpen (with_field w v width)
with_field-IsOpen w v width o fits = record {
  top = o.top * 2 ^ width + v;
  total = o.total;
  some_total = o.some_total;
  count = omega (arith, o.count);
  zeros =
      let e : w.bit_total - (w.bit_count + width) ≡ w.bit_total - w.bit_count - width =
        omega arith in
      rw (e, o.zeros, pow_split (w.bit_total - w.bit_count) width fits) (omega arith);
}

pub write_fields-pack :
    (fs : List BitField) (w : Writer)
    → IsOpen w
    → Fill fs (w.bit_total - w.bit_count)
    → write_fields fs w
      ≡ ok (record w {
        bits = w.bits + pack fs (w.bit_total - w.bit_count);
        bit_count = w.bit_total;
      })
unfolding write_fields
write_fields-pack [] w o fill = ground (arith, o.count)
write_fields-pack ((v, width) ∷ fs) w o (positive, fits, value, rest) =
    let e : w.bit_total - w.bit_count - width ≡ w.bit_total - (w.bit_count + width) = omega arith in
    let ih =
      write_fields-pack fs (with_field w v width) (with_field-IsOpen w v width o fits)
        (rw e at rest) in
    rw (bit-with_field w v width o positive fits value) (ih ∙ rw (← e) (ground arith))

pub pack-lt : (fs : List BitField) (room : ℕ) → Fill fs room → pack fs room < 2 ^ room
pack-lt [] room h = ground arith
pack-lt ((v, width) ∷ fs) room (positive, fits, value, rest) =
    rw (pow_split room width fits)
      (grind (arith, pack-lt fs (room - width) rest, one-le-two_pow (room - width)))

-- The reader's mask keeps the low bits.
low_bits :
    (x width : ℕ)
    → width ≤ 64
    → bit_and x (if width == 64 then size_max else 2 ^ width - 1) ≡ x % 2 ^ width
low_bits x width h = elim (Bool-cases (width == 64)) [
  | inl e ↦ rw ((==_iff width 64).0 e) (and_mask 64 x)
  | inr ne ↦ rw ne (and_mask width x)
]

-- One read from an open container takes its highest unread bits.
bits-open :
    (host_little : Bool) (width : ℕ) (r : Reader)
    → 0 < width
    → width ≤ r.bit_remaining
    → r.bit_remaining ≤ 64
    → Reader.bits host_little width r
      ≡ ok (
        r.bit_container / 2 ^ (r.bit_remaining - width) % 2 ^ width,
        record r { bit_remaining = r.bit_remaining - width },
      )
unfolding Reader.bits
bits-open host_little width r positive fits small =
    ground (arith, low_bits (shr r.bit_container (r.bit_remaining - width)) width)

digits_unique :
    (x v y low unit : ℕ)
    → y < unit
    → low < unit
    → x * unit + y ≡ v * unit + low
    → (x ≡ v) × (y ≡ low)
digits_unique x v y low unit hy hl e =
    let some_unit : 0 < unit = omega arith in
    let high : x + y / unit ≡ v + low / unit =
      sym (mul-add-div_right some_unit x y)
      ∙ ap (λ (t : ℕ). t / unit) e
      ∙ mul-add-div_right some_unit v low in
    let same : x ≡ v = omega (arith, high, div-eq_of_lt hy, div-eq_of_lt hl) in
    (same, omega (arith, e, ap (λ (t : ℕ). t * unit) same))

-- The highest field of a packed container, and the container of the others.
field-of-pack :
    (c v width room low : ℕ)
    → width ≤ room
    → v < 2 ^ width
    → low < 2 ^ (room - width)
    → c % 2 ^ room ≡ v * 2 ^ (room - width) + low
    → (c / 2 ^ (room - width) % 2 ^ width ≡ v) × (c % 2 ^ (room - width) ≡ low)
field-of-pack c v width room low fits value below e =
    let unit : ℕ = 2 ^ (room - width) in
    let some_unit : 0 < unit = one-le-two_pow (room - width) in
    let split : 2 ^ room ≡ unit * 2 ^ width =
      pow_split room width fits ∙ mul_comm (2 ^ width) unit in
    digits_unique (c / unit % 2 ^ width) v (c % unit) low unit (mod-lt c some_unit) below
      (sym (mod-mul c unit (2 ^ width)) ∙ (rw split at e))

pub read_fields-pack :
    (host_little : Bool) (fs : List BitField) (r : Reader)
    → r.bit_remaining ≤ 64
    → Fill fs r.bit_remaining
    → r.bit_container % 2 ^ r.bit_remaining ≡ pack fs r.bit_remaining
    → read_fields host_little (map (λ f. f.1) fs) r
      ≡ ok (map (λ f. f.0) fs, record r { bit_remaining = 0 })
unfolding read_fields
read_fields-pack host_little [] r small fill packed = ground arith
read_fields-pack host_little ((v, width) ∷ fs) r small (positive, fits, value, rest) packed =
    let (here, others) =
      field-of-pack r.bit_container v width r.bit_remaining (pack fs (r.bit_remaining - width)) fits
        value (pack-lt fs (r.bit_remaining - width) rest) packed in
    let ih =
      read_fields-pack host_little fs (record r { bit_remaining = r.bit_remaining - width })
        (omega arith) rest others in
    rw (bits-open host_little width r positive fits small, ih, here)
