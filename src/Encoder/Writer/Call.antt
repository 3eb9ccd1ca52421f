-- ===== src/Encoder/Writer/Call.antt =====
-- The calls that a client can make on a writer, and what a call does to it.
use embx.Prelude.{ℕ, Bool, List}
use embx.Prelude.Int.{ℤ}
use embx.Prelude.Result.{Result, ok}
use embx.Runtime.Host.{Endian}
use embx.Encoder.Writer
use embx.Encoder.Writer.{Writer}

pub data Call : Type 0 where
  set_endian : Endian → Call
  set_pos seek seek_root write_zeros align begin_bits push_limit truncate : ℕ → Call
  bytes : List ℕ → Call
  uint bit : ℕ → ℕ → Call
  sint : ℤ → ℕ → Call
  end_bits pop_limit : Call

abbrev pub run : Bool → Call → Writer → Result Writer
run host_little (Call.set_endian e) w = ok (Writer.set_endian e w)
run host_little (Call.set_pos n) w = Writer.set_pos n w
run host_little (Call.seek n) w = Writer.seek n w
run host_little (Call.seek_root n) w = Writer.seek_root n w
run host_little (Call.write_zeros n) w = Writer.write_zeros n w
run host_little (Call.align n) w = Writer.align n w
run host_little (Call.begin_bits n) w = Writer.begin_bits n w
run host_little (Call.push_limit n) w = Writer.push_limit n w
run host_little (Call.truncate n) w = ok (Writer.truncate n w)
run host_little (Call.bytes b) w = Writer.bytes b w
run host_little (Call.uint v n) w = Writer.uint host_little v n w
run host_little (Call.bit v n) w = Writer.bit v n w
run host_little (Call.sint v n) w = Writer.sint host_little v n w
run host_little Call.end_bits w = Writer.end_bits host_little w
run host_little Call.pop_limit w = Writer.pop_limit w
