-- ===== src/Runtime/Reader/Wf.antt =====
-- runtime/Runtime.cpp: well-formed readers. The position stands inside the active limit, and each
-- limit inside the one that was active before it, up to the end of the input.
use embx.Prelude.{ℕ, ◌-◌, ◌≤◌, ◌<◌, ◌≡◌, refl, true, Bool, List, [], ◌∷◌, arith, length}
use embx.Prelude.Result.{Result, ok, err}
use embx.Runtime.Host.{word, checked_add}
use embx.Runtime.Bytes.{AreBytes}
use embx.Runtime.Reader.Call.{Call, run}
use embx.Runtime.Reader.{
  Reader, make, remaining, set_endian, seek, seek_root, align, bytes, end_bits, push_limit,
  push_limit_end, pop_limit, pop_to, uint, sint, begin_bits, bits, State, limits_ok, check_limits,
  restore,
}

abbrev pub IsChain : ℕ → ℕ → List ℕ → Type 0
IsChain size inner [] = inner ≡ size
IsChain size inner (outer ∷ ls) = (inner ≤ outer) × IsChain size outer ls

pub IsChain-le : (size inner : ℕ) (ls : List ℕ) → IsChain size inner ls → inner ≤ size
IsChain-le size inner [] h = omega arith
IsChain-le size inner (outer ∷ ls) h = omega (arith, IsChain-le size outer ls h.1)

pub record IsWf (r : Reader) : Type 0 where
  pub within : r.p ≤ r.limit
  pub nested : IsChain (length r.d) r.limit r.limits
  pub fits : length r.d < word
  pub contents : AreBytes r.d
  pub open_bits : r.bit_remaining ≤ 64

pub inside : {r : Reader} → IsWf r → r.limit ≤ length r.d
inside {r} w = IsChain-le (length r.d) r.limit r.limits w.nested

-- In a well-formed reader the subtraction does not wrap.
pub remaining_lem : {r : Reader} → IsWf r → remaining r ≡ r.limit - r.p
unfolding remaining
remaining_lem {r} w = omega (arith, inside w, w.within, w.fits)

-- Limits from the end of the input on that do not decrease and do not exceed it are all its end.
limits_ok-IsChain : (size : ℕ) (ls : List ℕ) → limits_ok size size ls ≡ true → IsChain size size ls
unfolding limits_ok
limits_ok-IsChain size [] h = refl
limits_ok-IsChain size (l ∷ ls) h =
    let same : l ≡ size = ground arith in
    let later : limits_ok size l ls ≡ true = ground arith in
    (omega arith, rw same (limits_ok-IsChain size ls (rw same at later)))

check_limits-IsChain :
    (size : ℕ) (s : State) (ls : List ℕ)
    → check_limits size s ls ≡ ok tt
    → limits_ok size s.limit ls ≡ true
    → IsChain size s.limit ls
unfolding check_limits limits_ok
check_limits-IsChain size s [] h k = ground arith
check_limits-IsChain size s (l ∷ ls) h k =
    let same : l ≡ size = ground arith in
    let le : s.limit ≤ l = ground arith in
    let later : limits_ok size l ls ≡ true = ground arith in
    (le, rw same (limits_ok-IsChain size ls (rw same at later)))

module _ (host_little : Bool) where
  seek-IsWf : (n : ℕ) {r r' : Reader} → IsWf r → seek n r ≡ ok r' → IsWf r'
  unfolding seek
  seek-IsWf n w h = ground arith

  pop_to-IsWf :
      (ls : List ℕ) {r r' : Reader} → IsWf r → r.limits ≡ ls → pop_to ls r ≡ ok r' → IsWf r'
  unfolding pop_to
  pop_to-IsWf [] w e h = cc
  pop_to-IsWf (outer ∷ ls) {r} w e h =
      let chain : IsChain (length r.d) r.limit (outer ∷ ls) = rw e at w.nested in ground arith

  begin_bits-IsWf : (n : ℕ) {r r' : Reader} → IsWf r → begin_bits host_little n r ≡ ok r' → IsWf r'
  unfolding begin_bits
  begin_bits-IsWf n {r} w h = ground (arith, remaining_lem w)

  restore-IsWf : (s : State) {r r' : Reader} → IsWf r → restore s r ≡ ok r' → IsWf r'
  unfolding restore
  restore-IsWf s {r} {r'} w h =
      let chain : check_limits (length r.d) s s.limits ≡ ok tt
          → limits_ok (length r.d) s.limit s.limits ≡ true
          → IsChain (length r.d) s.limit s.limits =
        check_limits-IsChain (length r.d) s s.limits in
      ground (arith, chain)

  -- A call on a well-formed reader that does not throw leaves a well-formed reader.
  pub step-IsWf : (c : Call) {r r' : Reader} → IsWf r → run host_little c r ≡ ok r' → IsWf r'
  unfolding set_endian checked_add seek seek_root align bytes uint sint begin_bits bits push_limit
      push_limit_end end_bits pop_limit
  step-IsWf (Call.set_endian e) w h = ground arith
  step-IsWf (Call.seek n) w h = ground arith
  step-IsWf (Call.seek_root n) w h = ground arith
  step-IsWf (Call.align n) w h = ground arith
  step-IsWf (Call.bytes n) w h = ground (arith, remaining_lem w)
  step-IsWf (Call.uint n) w h = ground (arith, remaining_lem w)
  step-IsWf (Call.sint n) w h = ground (arith, remaining_lem w)
  step-IsWf (Call.begin_bits n) w h = begin_bits-IsWf n w h
  step-IsWf (Call.bits n) {r} w h = ground (arith, remaining_lem w)
  step-IsWf (Call.push_limit n) w h = ground arith
  step-IsWf (Call.push_limit_end n) w h = ground arith
  step-IsWf Call.end_bits w h = ground arith
  step-IsWf Call.pop_limit {r} w h = pop_to-IsWf r.limits w refl h
  step-IsWf (Call.restore s) w h = restore-IsWf s w h

-- A client that makes one call after the other, and goes on after an exception.
abbrev after : Result Reader → Reader → Reader
after (ok r') r = r'
after (err e) r = r

unfoldable pub run_all : Bool → List Call → Reader → Reader
run_all host_little [] r = r
run_all host_little (c ∷ cs) r = run_all host_little cs (after (run host_little c r) r)

after-IsWf :
    (host_little : Bool) (c : Call) (r : Reader) (res : Result Reader)
    → IsWf r
    → run host_little c r ≡ res
    → IsWf (after res r)
after-IsWf host_little c r (ok r') w h = step-IsWf host_little c w h
after-IsWf host_little c r (err e) w h = w

run_all-IsWf :
    (host_little : Bool) (cs : List Call) (r : Reader) → IsWf r → IsWf (run_all host_little cs r)
unfolding run_all
run_all-IsWf host_little [] r w = w
run_all-IsWf host_little (c ∷ cs) r w =
    run_all-IsWf host_little cs (after (run host_little c r) r)
      (after-IsWf host_little c r (run host_little c r) w refl)

-- Over an input of bytes that fits `size_t`, any sequence of the calls that change a reader (all but
-- those for floats), `restore` of any state included, some of which may throw, leaves a new reader
-- with its position inside the active limit, its limits nested up to the end of the input and at
-- most 64 open bits.
pub run_all-make-IsWf :
    (host_little : Bool) (cs : List Call) (d : List ℕ)
    → AreBytes d
    → length d < word
    → IsWf (run_all host_little cs (make d))
run_all-make-IsWf host_little cs d contents fits = run_all-IsWf host_little cs (make d) (
    unfold make in
    record {
      within = omega arith;
      nested = refl;
      fits = fits;
      contents = contents;
      open_bits = omega arith;
    })
