-- ===== src/Tests/Streams.antt =====
-- runtime/Runtime.cpp and encoder/Encoder.cpp at concrete inputs.
use embx.Prelude.{ℕ, ◌≡◌, refl, true, List, [], ◌∷◌, arith}
use embx.Prelude.Int.{negsuc}
use embx.Prelude.Result.{ok}
use embx.Runtime.Host.{checked_add, little}
use embx.Runtime.Bytes.{AreBytes}
use embx.Runtime.Reader
use embx.Runtime.Reader.{Reader, state, restore}
use embx.Runtime.Reader.Call.{Call}
use embx.Runtime.Reader.Wf.{IsWf, run_all, run_all-make-IsWf}
use embx.Runtime.Reader.Values.{uint-eq, sint-eq, uint_outcome, sint_outcome}
use embx.Runtime.Reader.Restore.{restored, restore-state}

abbrev input : List ℕ
input = 18 ∷ 244 ∷ 255 ∷ 7 ∷ []

input-AreBytes : AreBytes input
input-AreBytes = (omega arith, (omega arith, (omega arith, (omega arith, tt))))

-- A reader inside a nested limit, with its first byte read.
abbrev nested : Reader
nested = record {
  d = input;
  p = 1;
  limit = 3;
  e = little;
  limits = 4 ∷ [];
  bit_container = 0;
  bit_remaining = 0;
}

nested-IsWf : IsWf nested
nested-IsWf = record {
  within = omega arith;
  nested = (omega arith, refl);
  fits = omega arith;
  contents = input-AreBytes;
  open_bits = omega arith;
}

-- The second limit is pushed, a read passes it, and the client goes on.
abbrev calls : List Call
calls =
    Call.uint 1
    ∷ Call.push_limit 2
    ∷ Call.push_limit 2
    ∷ Call.uint 4
    ∷ Call.sint 2
    ∷ Call.pop_limit
    ∷ Call.restore (state (Reader.make []))
    ∷ []

run_all-make-IsWf_example : IsWf (run_all true calls (Reader.make input))
run_all-make-IsWf_example = run_all-make-IsWf true calls input input-AreBytes (omega arith)

calls_run : run_all true calls (Reader.make input) ≡ record nested { p = 3; limits = 4 ∷ [] }
unfolding run_all Reader.make Reader.remaining Reader.uint Reader.push_limit Reader.push_limit_end
    checked_add Reader.sint Reader.pop_limit Reader.pop_to restore state Reader.limits_ok
    Reader.check_limits
calls_run = refl

uint-eq_example : Reader.uint true 2 nested ≡ uint_outcome true 2 nested
uint-eq_example = uint-eq true 2 nested-IsWf

sint-eq_example : Reader.sint true 2 nested ≡ sint_outcome true 2 nested
sint-eq_example = sint-eq true 2 nested-IsWf

negative_word : sint_outcome true 2 nested ≡ ok (negsuc 11, record nested { p = 3 })
negative_word = refl

restore-state_example : restore (state nested) nested ≡ restored (4 ∷ []) nested nested
restore-state_example = restore-state nested nested nested-IsWf refl
