-- ===== src/Runtime/Reader/Call.antt =====
-- The calls that change a reader, and what a call does to it. `restore` takes any state, also one
-- that no reader gave out; `restore(size_t)` is `seek`.
use embx.Prelude.{ℕ, Bool}
use embx.Prelude.Result.{Result, ok, err}
use embx.Runtime.Host.{Endian}
use embx.Runtime.Reader
use embx.Runtime.Reader.{Reader, State}

pub data Call : Type 0 where
  set_endian : Endian → Call
  seek seek_root align bytes uint sint begin_bits bits push_limit push_limit_end : ℕ → Call
  end_bits pop_limit : Call
  restore : State → Call

abbrev pub then_state {ℓ} : {A : Type ℓ} → Result (A × Reader) → Result Reader
then_state (ok (a, r)) = ok r
then_state (err e) = err e

abbrev pub run : Bool → Call → Reader → Result Reader
run host_little (Call.set_endian e) r = ok (Reader.set_endian e r)
run host_little (Call.seek n) r = Reader.seek n r
run host_little (Call.seek_root n) r = Reader.seek_root n r
run host_little (Call.align n) r = Reader.align n r
run host_little (Call.bytes n) r = then_state (Reader.bytes n r)
run host_little (Call.uint n) r = then_state (Reader.uint host_little n r)
run host_little (Call.sint n) r = then_state (Reader.sint host_little n r)
run host_little (Call.begin_bits n) r = Reader.begin_bits host_little n r
run host_little (Call.bits n) r = then_state (Reader.bits host_little n r)
run host_little (Call.push_limit n) r = Reader.push_limit n r
run host_little (Call.push_limit_end n) r = Reader.push_limit_end n r
run host_little Call.end_bits r = Reader.end_bits r
run host_little Call.pop_limit r = Reader.pop_limit r
run host_little (Call.restore s) r = Reader.restore s r
