-- ===== src/Runtime/Reader/Restore.antt =====
-- runtime/Runtime.h: `Reader::state` and `Reader::restore(const State&)`.
use embx.Prelude.{ℕ, ◌≤◌, ◌≡◌, refl, true, List, [], ◌∷◌, arith, ◌==◌, if◌then◌else◌, length}
use embx.Prelude.Result.{Result, ok, err}
use embx.Runtime.Reader.Wf.{IsWf, IsChain, IsChain-le}
use embx.Runtime.Reader.{Reader, State, state, limits_ok, front, check_limits, restore}

limits_ok-chain :
    (size inner : ℕ) (ls : List ℕ) → IsChain size inner ls → limits_ok size inner ls ≡ true
unfolding limits_ok
limits_ok-chain size inner [] h = refl
limits_ok-chain size inner (l ∷ ls) h =
    ground (arith, limits_ok-chain size l ls h.1, IsChain-le size l ls h.1)

front-chain : (size inner : ℕ) (ls : List ℕ) → IsChain size inner ls → inner ≤ front inner ls
unfolding front
front-chain size inner [] h = omega arith
front-chain size inner (l ∷ ls) h = omega (arith, h.0, front-chain size l ls h.1)

-- What `restore` does with a state that `state()` returned: it takes it back if there is no limit
-- or the limit saved last is the end of the input.
abbrev pub restored : List ℕ → Reader → Reader → Result Reader
restored [] saved r = ok (record saved { d = r.d })
restored (l ∷ ls) saved r =
    if l == length r.d then ok (record saved { d = r.d }) else err "invalid reader limit root"

check_limits-chain :
    (size : ℕ) (s : State) (l : ℕ) (ls : List ℕ)
    → s.pos ≤ s.limit
    → IsChain size s.limit (l ∷ ls)
    → check_limits size s (l ∷ ls) ≡ (if l == size then ok tt else err "invalid reader limit root")
unfolding check_limits
check_limits-chain size s l ls within nested = ground (arith, front-chain size l ls nested.1)

restore-limits :
    (ls : List ℕ) (saved r : Reader)
    → saved.limits ≡ ls
    → IsWf saved
    → r.d ≡ saved.d
    → restore (state saved) r ≡ restored ls saved r
unfolding restore state check_limits
restore-limits [] saved r e wf same =
    let chain : IsChain (length saved.d) saved.limit [] = rw e at wf.nested in
    let passes = limits_ok-chain (length saved.d) saved.limit saved.limits wf.nested in
    rw (same, passes, e) (ground arith)
restore-limits (l ∷ ls) saved r e wf same =
    let chain : IsChain (length saved.d) saved.limit (l ∷ ls) = rw e at wf.nested in
    let passes = limits_ok-chain (length saved.d) saved.limit saved.limits wf.nested in
    let le = IsChain-le (length saved.d) saved.limit saved.limits wf.nested in
    rw (same, passes, e) (ground (arith, le, front-chain (length saved.d) l ls chain.1))

-- A state that a well-formed reader gave out is taken back exactly if no limit is active, or if the
-- limit that was replaced last is the end of the input; else `restore` throws.
pub restore-state :
    (saved r : Reader)
    → IsWf saved
    → r.d ≡ saved.d
    → restore (state saved) r ≡ restored saved.limits saved r
restore-state saved r wf same = restore-limits saved.limits saved r refl wf same
