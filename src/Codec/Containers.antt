-- ===== src/Codec/Containers.antt =====
-- A whole bit container: `beginBits`, `bit` for each field and `endBits` of encoder/Encoder.cpp
-- against `beginBits` and `bits` for each field of runtime/Runtime.cpp.
use native.Mathlib.Nat.{mod-eq_of_lt, mul-div_cancel}
use embx.Prelude.{
  ℕ, ◌+◌, ◌-◌, ◌*◌, ◌/◌, ◌^◌, ◌≤◌, ◌<◌, ◌≡◌, refl, ap, ◌∙◌, inl, inr, Bool-cases, Bool, List, map,
  arith, ltb, length,
}
use embx.Prelude.Bits.{pow_add, pow_le, one-le-two_pow}
use embx.Prelude.Result.{Result, ok, ◌>>=◌, >>=-eq-ok}
use embx.Runtime.Host.{word, is_little}
use embx.Runtime.Bytes.{slice, of_bytes, assemble, assemble_lem}
use embx.Runtime.Reader
use embx.Runtime.Reader.{Reader}
use embx.Runtime.Reader.Wf.{IsWf, remaining_lem}
use embx.Encoder.Writer
use embx.Encoder.Writer.{Writer, store, grow, closing}
use embx.Encoder.Writer.Wf.{length-grow}
use embx.Encoder.Writer.Stored.{of_bytes-store}
use embx.Codec.BitFields.{
  BitField, write_fields, read_fields, pack, Fill, pack-lt, IsOpen, write_fields-pack,
  read_fields-pack,
}
use embx.Codec.Words.{Follows}

-- A client that writes a container of fields, and one that reads fields of given widths.
unfoldable pub write_container : Bool → ℕ → List BitField → Writer → Result Writer
write_container host_little total fs w = do
  opened ← Writer.begin_bits total w
  filled ← write_fields fs opened
  Writer.end_bits host_little filled

unfoldable pub read_container : Bool → ℕ → List ℕ → Reader → Result (List ℕ × Reader)
read_container host_little total widths r = do
  opened ← Reader.begin_bits host_little total r
  (values, read) ← read_fields host_little widths opened
  closed ← Reader.end_bits read
  ok (values, closed)

-- After `begin_bits` the container is empty.
abbrev opened : ℕ → Writer → Writer
opened total w = record w { bit_total = total; bit_count = 0; bits = 0 }

begin_bits-opened :
    (total : ℕ) (w : Writer) {x : Writer}
    → Writer.begin_bits total w ≡ ok x
    → (0 < total) × (total ≤ 64) × (x ≡ opened total w)
unfolding Writer.begin_bits
begin_bits-opened total w {x} h = ground arith

opened-IsOpen : (total : ℕ) (w : Writer) → 0 < total → total ≤ 64 → IsOpen (opened total w)
opened-IsOpen total w positive small = record {
  top = 0;
  total = small;
  some_total = positive;
  count = omega arith;
  zeros = omega arith;
}

-- The bytes that hold `total` bits, and the bits left over.
abbrev bytes_for : ℕ → ℕ
bytes_for total = (total + 7) / 8

record Closed (lsb_first : Bool) (x total : ℕ) (w w' : Writer) : Type 0 where
  advanced : w'.p ≡ w.p + bytes_for total
  found :
      of_bytes lsb_first (slice w'.d w.p (bytes_for total)) ≡ x * 2 ^ (bytes_for total * 8 - total)

closing_lem :
    (total x : ℕ) (w : Writer)
    → 0 < total
    → total ≤ 64
    → x < 2 ^ total
    → w.bit_total ≡ total
    → w.bits ≡ x
    → (closing w ≡ x * 2 ^ (bytes_for total * 8 - total)) × (closing w < 2 ^ (8 * bytes_for total))
closing_lem total x w positive small fits e f =
    let nb : ℕ = bytes_for total in
    let gap : ℕ = nb * 8 - total in
    let same : total + gap ≡ 8 * nb = omega arith in
    let split : 2 ^ (8 * nb) ≡ 2 ^ total * 2 ^ gap = rw same at (pow_add total gap) in
    let below : x * 2 ^ gap < 2 ^ (8 * nb) = rw split (grind (arith, one-le-two_pow gap)) in
    let in_word : x * 2 ^ gap < word = omega (arith, below, pow_le (8 * nb) 64 (omega arith)) in
    rw (e, f)
      (elim (Bool-cases (ltb total (nb * 8))) [
        | inl wide ↦ rw (wide, mod-eq_of_lt in_word) (refl, below)
        | inr exact ↦
            let none_left : gap ≡ 0 = ground arith in
            let whole : x ≡ x * 2 ^ gap = rw none_left (omega arith) in
            rw exact (whole, omega (arith, below, whole))
      ])

end_bits-Closed :
    (host_little : Bool) (total x : ℕ) {w w' : Writer}
    → 0 < total
    → total ≤ 64
    → x < 2 ^ total
    → w.bit_total ≡ total
    → w.bits ≡ x
    → Writer.end_bits host_little w ≡ ok w'
    → Closed (is_little host_little w.e) x total w w'
unfolding Writer.end_bits
end_bits-Closed host_little total x {w} {w'} positive small fits e f h =
    let moved : w'.p ≡ w.p + (w.bit_total + 7) / 8 = ground arith in
    let stored : w'.d
        ≡ store (is_little host_little w.e) (grow (w.p + (w.bit_total + 7) / 8) w.d) w.p
            ((w.bit_total + 7) / 8) (closing w) =
      ground arith in
    let nb : ℕ = bytes_for total in
    let d : List ℕ = grow (w.p + nb) w.d in
    let lsb_first : Bool = is_little host_little w.e in
    let same : (w.bit_total + 7) / 8 ≡ nb = rw e in
    let long : w.p + nb ≤ length d = omega (arith, length-grow (w.p + nb) w.d) in
    let (value, below) = closing_lem total x w positive small fits e f in
    let bytes : w'.d ≡ store lsb_first d w.p nb (closing w) = cc (same, stored) in
    record {
      advanced = moved ∙ ap (λ (t : ℕ). w.p + t) same;
      found =
          rw bytes
            (of_bytes-store lsb_first d w.p nb (closing w) long ∙ mod-eq_of_lt below ∙ value);
    }

shift_by_zero : (x gap : ℕ) → gap ≡ 0 → x * 2 ^ gap ≡ x
shift_by_zero x gap e = rw e (omega arith)

begin_bits-container :
    (host_little : Bool) (total x : ℕ) (r : Reader)
    → IsWf r
    → r.bit_remaining ≡ 0
    → 0 < total
    → total ≤ 64
    → r.p + bytes_for total ≤ r.limit
    → of_bytes (is_little host_little r.e) (slice r.d r.p (bytes_for total))
      ≡ x * 2 ^ (bytes_for total * 8 - total)
    → Reader.begin_bits host_little total r
      ≡ ok (record r { p = r.p + bytes_for total; bit_container = x; bit_remaining = total })
unfolding Reader.begin_bits
begin_bits-container host_little total x r wf idle positive small room found =
    let nb : ℕ = bytes_for total in
    let gap : ℕ = nb * 8 - total in
    let little : Bool = is_little host_little r.e in
    let whole : assemble little r.d r.p nb ≡ x * 2 ^ gap =
      assemble_lem little r.d r.p nb wf.contents (omega arith) ∙ found in
    rw (whole, remaining_lem wf)
      (ground (arith, mul-div_cancel x (one-le-two_pow gap), shift_by_zero x gap))

-- The writer when all fields are in.
abbrev filled_writer : ℕ → List BitField → Writer → Writer
filled_writer total fs w = record w {
  bit_total = total;
  bit_count = total;
  bits = 0 + pack fs (total - 0);
}

-- Fields that fill a container, and that were written as one, are read back as they were: each
-- value in its place, with the container used up and the reader where the writer stood.
pub read-write_container :
    (host_little : Bool) (total : ℕ) (fs : List BitField) (w w' : Writer) (r : Reader)
    → Fill fs total
    → write_container host_little total fs w ≡ ok w'
    → Follows r w w'
    → r.bit_remaining ≡ 0
    → read_container host_little total (map (λ f. f.1) fs) r
      ≡ ok (map (λ f. f.0) fs, record r { p = w'.p; bit_container = 0; bit_remaining = 0 })
unfolding write_container read_container Reader.end_bits
read-write_container host_little total fs w w' r fill h f idle =
    let (o, begun, rest) = >>=-eq-ok (Writer.begin_bits total w) _ h in
    let (positive, small, start) = begin_bits-opened total w begun in
    let z : total - 0 ≡ total = omega arith in
    let filled =
      write_fields-pack fs (opened total w) (opened-IsOpen total w positive small) (rw z fill) in
    let ended : Writer.end_bits host_little (filled_writer total fs w) ≡ ok w' =
      rw (start, filled) at rest in
    let x : ℕ = pack fs total in
    let c =
      end_bits-Closed host_little total x positive small (pack-lt fs total fill) refl
        (rw z (omega arith)) ended in
    let begins =
      begin_bits-container host_little total x r f.well_formed idle positive small
        (omega (arith, c.advanced, f.whole, f.same_place))
        (rw (f.same_bytes, f.same_place, f.same_order) c.found) in
    let reads =
      read_fields-pack host_little fs
        (record r { p = r.p + bytes_for total; bit_container = x; bit_remaining = total }) small
        fill (mod-eq_of_lt (pack-lt fs total fill)) in
    let at_end : r.p + bytes_for total ≡ w'.p = omega (arith, c.advanced, f.same_place) in
    rw (begins, reads, at_end)
