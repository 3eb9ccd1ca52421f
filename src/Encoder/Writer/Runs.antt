-- ===== src/Encoder/Writer/Runs.antt =====
-- encoder/Encoder.cpp: the writers that a client reaches by calls, some of which throw.
use embx.Prelude.{◌≡◌, refl, Bool, List, [], ◌∷◌, arith}
use embx.Prelude.Result.{Result, ok, err}
use embx.Encoder.Writer.Call.{Call, run}
use embx.Encoder.Writer.Wf.{IsWf, IsGiven, call-IsWf}
use embx.Encoder.Writer.{Writer, make}

abbrev after : Result Writer → Writer → Writer
after (ok w') w = w'
after (err e) w = w

-- A client that makes one call after the other, and goes on after an exception.
unfoldable pub run_all : Bool → List Call → Writer → Writer
run_all host_little [] w = w
run_all host_little (c ∷ cs) w = run_all host_little cs (after (run host_little c w) w)

abbrev pub AreGiven : List Call → Type 0
AreGiven [] = Unit
AreGiven (c ∷ cs) = IsGiven c × AreGiven cs

after-IsWf :
    (host_little : Bool) (c : Call) (w : Writer) (res : Result Writer)
    → IsGiven c
    → IsWf w
    → run host_little c w ≡ res
    → IsWf (after res w)
after-IsWf host_little c w (ok w') g wf h = call-IsWf host_little c g wf h
after-IsWf host_little c w (err e) g wf h = wf

run_all-IsWf :
    (host_little : Bool) (cs : List Call) (w : Writer)
    → AreGiven cs
    → IsWf w
    → IsWf (run_all host_little cs w)
unfolding run_all
run_all-IsWf host_little [] w g wf = wf
run_all-IsWf host_little (c ∷ cs) w (g, gs) wf =
    run_all-IsWf host_little cs (after (run host_little c w) w) gs
      (after-IsWf host_little c w (run host_little c w) g wf refl)

-- Calls that pass bytes and a length that fits `size_t`, some of which may throw, leave a new writer
-- with its position inside the active limit and inside the output, its limits nested up to the
-- largest `size_t`, and an output of bytes that fits `size_t`.
pub run_all-make-filled :
    (host_little : Bool) (cs : List Call) → AreGiven cs → IsWf (run_all host_little cs make)
run_all-make-filled host_little cs g = run_all-IsWf host_little cs make g (
    unfold make in
    record {
      within = omega arith;
      nested = refl;
      filled = omega arith;
      fits = omega arith;
      contents = tt;
    })
