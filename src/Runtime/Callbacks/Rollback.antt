-- ===== src/Runtime/Callbacks/Rollback.antt =====
-- runtime/Runtime.cpp: what `CallbackRegistry::call` leaves of the reader and of the output.
use embx.Prelude.{
  ◌≡◌, ◌≤◌, refl, ap, ◌∙◌, arith, String, Bool, true, false, Option, none, some, [], ltb, ◌+s◌,
  if◌then◌else◌, length,
}
use embx.Prelude.Map.{text_key, lookup}
use embx.Prelude.Result.{Result, ok, ◌>>=◌}
use embx.Runtime.Reader.{Reader, state, restore}
use embx.Runtime.Reader.Wf.{IsWf}
use embx.Runtime.Reader.Restore.{restored, restore-state}
use embx.Encoder.Writer.Wf.{length-resize}
use embx.Runtime.Callbacks.{
  rolled_back, CallbackRegistry, CallbackResult, Answer, gave, threw, Output, outcome,
  decode_answer, decode_found, call_decoder, encode_answer, encode_found, call_encoder,
}

abbrev pub left : {S : Type 0} → Answer S → S
left (gave b e s) = s
left (threw e s) = s

-- A reader's input cannot be replaced through the reference that a callback gets.
abbrev pub KeepsInput : (Reader → Answer Reader) → Type 0
KeepsInput cb = (r : Reader) → (left (cb r)).d ≡ r.d

-- The call did not throw, and unless it succeeded the reader is the old one.
abbrev pub IsRolledBack : Reader → Result (CallbackResult × Reader) → Type 0
IsRolledBack r res =
    (c : CallbackResult) × (r' : Reader) × (res ≡ ok (c, r')) × (c.success ≡ false → r' ≡ r)

restore-root :
    (saved r : Reader)
    → IsWf saved
    → saved.limits ≡ []
    → r.d ≡ saved.d
    → restore (state saved) r ≡ ok saved
restore-root saved r wf root same =
    restore-state saved r wf same
    ∙ ap (λ ls. restored ls saved r) root
    ∙ ap (λ d. ok (record saved { d = d })) same

restored-IsRolledBack :
    (res : CallbackResult) (saved : Reader) (m : Result Reader)
    → m ≡ ok saved
    → IsRolledBack saved (m >>= λ r'. ok (res, r'))
restored-IsRolledBack res saved m e =
    (res, saved, ap (λ (k : Result Reader). k >>= λ r'. ok (res, r')) e, λ f. refl)

answer-IsRolledBack :
    (n : String) (saved : Reader) (a : Answer Reader)
    → IsWf saved
    → saved.limits ≡ []
    → (left a).d ≡ saved.d
    → IsRolledBack saved (decode_answer n saved a)
unfolding decode_answer
answer-IsRolledBack n saved (gave true error r) wf root same =
    (outcome true true "", r, refl, λ e. cc)
answer-IsRolledBack n saved (gave false error r) wf root same =
    restored-IsRolledBack _ saved (restore (state saved) r) (restore-root saved r wf root same)
answer-IsRolledBack n saved (threw what r) wf root same =
    restored-IsRolledBack _ saved (restore (state saved) r) (restore-root saved r wf root same)

found-IsRolledBack :
    (n : String) (o : Option (Reader → Answer Reader)) (r : Reader)
    → IsWf r
    → r.limits ≡ []
    → ((cb : Reader → Answer Reader) → o ≡ some cb → KeepsInput cb)
    → IsRolledBack r (decode_found n o r)
unfolding decode_found
found-IsRolledBack n none r wf root keeps = (_, r, refl, λ e. refl)
found-IsRolledBack n (some cb) r wf root keeps =
    answer-IsRolledBack n r (cb r) wf root (keeps cb refl r)

-- With no limit active, a call of a decode callback that cannot replace the input does not throw, and
-- unless it reports success, a well-formed reader is afterwards what it was.
pub call_decoder-IsRolledBack :
    (n : String) (c : CallbackRegistry) (r : Reader)
    → IsWf r
    → r.limits ≡ []
    → ((cb : Reader → Answer Reader) → lookup n c.decoders ≡ some cb → KeepsInput cb)
    → IsRolledBack r (call_decoder n c r)
unfolding call_decoder
call_decoder-IsRolledBack n c r wf root keeps =
    found-IsRolledBack n (lookup n c.decoders) r wf root keeps

-- What a call on the output guarantees.
abbrev pub IsContained : Output → CallbackResult × Output → Type 0
IsContained o (res, o') =
    (res.success ≡ false → (o'.pos ≡ o.pos) × (length o'.out ≡ length o.out))
    × (res.success ≡ true → o'.pos ≤ length o'.out)

advanced-IsContained :
    (n : String) (past : Bool) (o o' : Output)
    → ltb (length o'.out) o'.pos ≡ past
    → IsContained o (
        if past
        then (
          outcome true false ("encode callback advanced beyond output: " +s n),
          rolled_back o o',
        )
        else (outcome true true "", o'))
advanced-IsContained n true o o' h = (λ e. (refl, length-resize (length o.out) o'.out), λ e. cc)
advanced-IsContained n false o o' h = (λ e. cc, λ e. ground arith)

encode_answer-IsContained :
    (n : String) (o : Output) (a : Answer Output) → IsContained o (encode_answer n o a)
unfolding encode_answer
encode_answer-IsContained n o (gave true error o') =
    advanced-IsContained n (ltb (length o'.out) o'.pos) o o' refl
encode_answer-IsContained n o (gave false error o') =
    (λ e. (refl, length-resize (length o.out) o'.out), λ e. cc)
encode_answer-IsContained n o (threw what o') =
    (λ e. (refl, length-resize (length o.out) o'.out), λ e. cc)

encode_found-IsContained :
    (n : String) (f : Option (Output → Answer Output)) (o : Output)
    → IsContained o (encode_found n f o)
unfolding encode_found
encode_found-IsContained n none o = (λ e. (refl, refl), λ e. cc)
encode_found-IsContained n (some cb) o = encode_answer-IsContained n o (cb o)

-- After a call of an encode callback that does not report success, the position and the output's
-- length are the old ones; after one that does, the position is within the output.
pub call_encoder-IsContained :
    (n : String) (c : CallbackRegistry) (o : Output) → IsContained o (call_encoder n c o)
unfolding call_encoder
call_encoder-IsContained n c o = encode_found-IsContained n (lookup n c.encoders) o
