-- ===== src/Tests/Codecs.antt =====
-- encoder/Encoder.cpp at concrete inputs, and the reader of what it wrote.
use embx.Prelude.{ℕ, ◌≡◌, refl, true, List, [], ◌∷◌, ◌≤◌, arith}
use embx.Prelude.Int.{negsuc}
use embx.Prelude.Result.{ok}
use embx.Runtime.Host.{big, size_max}
use embx.Runtime.Bytes.{AreBytes}
use embx.Runtime.Reader
use embx.Runtime.Reader.{Reader}
use embx.Runtime.Reader.Wf.{IsWf}
use embx.Encoder.Writer
use embx.Encoder.Writer.{Writer}
use embx.Encoder.Writer.Call.{Call}
use embx.Encoder.Writer.Wf.{IsWf as IsWritten}
use embx.Encoder.Writer.Runs.{run_all, run_all-make-filled}
use embx.Codec.BitFields.{BitField, write_fields}
use embx.Codec.Words.{Follows, read-write_uint, read-write_sint}
use embx.Codec.Containers.{write_container, read_container, read-write_container}

abbrev calls : List Call
calls =
    Call.uint 258 2
    ∷ Call.push_limit 2
    ∷ Call.bytes (7 ∷ 8 ∷ 9 ∷ [])
    ∷ Call.sint (negsuc 0) 2
    ∷ Call.pop_limit
    ∷ []

run_all-make-filled_example : IsWritten (run_all true calls Writer.make)
run_all-make-filled_example =
    run_all-make-filled true calls
      (tt, (tt, ((omega arith, (omega arith, (omega arith, tt))), (tt, (tt, tt)))))

-- A writer after one byte, in big-endian order, and a reader at the second of three bytes.
abbrev started : Writer
started = record {
  d = 5 ∷ [];
  p = 1;
  e = big;
  limit = size_max;
  limits = [];
  bits = 0;
  bit_count = 0;
  bit_total = 0;
}

abbrev wrote : List ℕ → Writer
wrote d = record started { d = d; p = 3 }

abbrev reading : List ℕ → Reader
reading d = record {
  d = d;
  p = 1;
  limit = 3;
  e = big;
  limits = [];
  bit_container = 0;
  bit_remaining = 0;
}

reading-IsWf : (a b : ℕ) → AreBytes (5 ∷ a ∷ b ∷ []) → IsWf (reading (5 ∷ a ∷ b ∷ []))
reading-IsWf a b h = record {
  within = omega arith;
  nested = refl;
  fits = omega arith;
  contents = h;
  open_bits = omega arith;
}

follows :
    (a b : ℕ)
    → AreBytes (5 ∷ a ∷ b ∷ [])
    → Follows (reading (5 ∷ a ∷ b ∷ [])) started (wrote (5 ∷ a ∷ b ∷ []))
follows a b h = record {
  well_formed = reading-IsWf a b h;
  same_bytes = refl;
  same_place = refl;
  same_order = refl;
  whole = omega arith;
}

three_bytes : (a b : ℕ) → a ≤ 255 → b ≤ 255 → AreBytes (5 ∷ a ∷ b ∷ [])
three_bytes a b h k = (omega arith, (omega arith, (omega arith, tt)))

read-write_uint_example :
    Reader.uint true 2 (reading (5 ∷ 1 ∷ 2 ∷ []))
    ≡ ok (258, record (reading (5 ∷ 1 ∷ 2 ∷ [])) { p = 3 })
read-write_uint_example =
    read-write_uint true 258 2 started (wrote (5 ∷ 1 ∷ 2 ∷ [])) (reading (5 ∷ 1 ∷ 2 ∷ []))
      (omega arith)
      (unfold Writer.uint Writer.ensure Writer.grow Writer.resize Writer.store Writer.little_loop
          Writer.big_loop in
        refl)
      (follows 1 2 (three_bytes 1 2 (omega arith) (omega arith)))

read-write_sint_example :
    Reader.sint true 2 (reading (5 ∷ 255 ∷ 254 ∷ []))
    ≡ ok (negsuc 1, record (reading (5 ∷ 255 ∷ 254 ∷ [])) { p = 3 })
read-write_sint_example =
    read-write_sint true (negsuc 1) 2 started (wrote (5 ∷ 255 ∷ 254 ∷ []))
      (reading (5 ∷ 255 ∷ 254 ∷ [])) (omega arith)
      (unfold Writer.sint Writer.uint Writer.ensure Writer.grow Writer.resize Writer.store
          Writer.little_loop Writer.big_loop in
        refl)
      (follows 255 254 (three_bytes 255 254 (omega arith) (omega arith)))

-- 3 in 3 bits, 300 in 9 bits and 1 in 4 bits.
abbrev fields : List BitField
fields = (3, 3) ∷ (300, 9) ∷ (1, 4) ∷ []

read-write_container_example :
    read_container true 16 (3 ∷ 9 ∷ 4 ∷ []) (reading (5 ∷ 114 ∷ 193 ∷ []))
    ≡ ok (
      3 ∷ 300 ∷ 1 ∷ [],
      record (reading (5 ∷ 114 ∷ 193 ∷ [])) { p = 3; bit_container = 0; bit_remaining = 0 },
    )
read-write_container_example =
    read-write_container true 16 fields started
      (record (wrote (5 ∷ 114 ∷ 193 ∷ [])) { bits = 0; bit_count = 0; bit_total = 0 })
      (reading (5 ∷ 114 ∷ 193 ∷ []))
      (
        omega arith,
        omega arith,
        omega arith,
        (omega arith, omega arith, omega arith, (omega arith, omega arith, omega arith, refl)),
      )
      (unfold write_container write_fields Writer.begin_bits Writer.bit Writer.end_bits
          Writer.ensure Writer.grow Writer.resize Writer.store Writer.little_loop Writer.big_loop in
        refl)
      (follows 114 193 (three_bytes 114 193 (omega arith) (omega arith))) refl
