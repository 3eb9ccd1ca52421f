-- ===== src/Runtime/Callbacks.antt =====
-- runtime/Runtime.h and Runtime.cpp: `CallbackRegistry`, and what a failed callback leaves. A
-- callback is code of the client: a function of the state that it is given by reference.
pub mod Rollback
use embx.Prelude.{
  ℕ, String, ◌+s◌, Bool, true, false, Option, none, some, List, ltb, str_eq, if◌then◌else◌, length,
}
use embx.Prelude.Map.{text_key, lookup, assign}
use embx.Prelude.Result.{Result, ok, err, ◌>>=◌, ◌>>◌, refuse_if}
use embx.Runtime.Reader.{Reader, state, restore}
use embx.Encoder.Writer.{resize}

pub record CallbackResult : Type 0 where
  pub invoked : Bool
  pub success : Bool
  pub error : String

abbrev pub outcome : Bool → Bool → String → CallbackResult
outcome invoked success error = record { invoked = invoked; success = success; error = error }

-- How a callback ends: it returns a flag and the text of its `error` parameter, or it throws; and
-- the state as it leaves it.
pub data Answer (S : Type 0) : Type 0 where
  gave : Bool → String → S → Answer S
  threw : String → S → Answer S

-- The output and the position in it.
pub record Output : Type 0 where
  pub out : List ℕ
  pub pos : ℕ

-- The environment and the arguments of a call are part of what the callback is a function of.
pub record CallbackRegistry : Type 0 where
  pub decoders : List (String × (Reader → Answer Reader))
  pub encoders : List (String × (Output → Answer Output))

unfoldable pub add_decoder :
    String → Option (Reader → Answer Reader) → CallbackRegistry → Result CallbackRegistry
add_decoder n none c = refuse_if (str_eq n "") "callback name is empty" >> err "callback is empty"
add_decoder n (some cb) c =
    refuse_if (str_eq n "") "callback name is empty"
    >> ok (record c { decoders = assign n cb c.decoders })

unfoldable pub add_encoder :
    String → Option (Output → Answer Output) → CallbackRegistry → Result CallbackRegistry
add_encoder n none c = refuse_if (str_eq n "") "callback name is empty" >> err "callback is empty"
add_encoder n (some cb) c =
    refuse_if (str_eq n "") "callback name is empty"
    >> ok (record c { encoders = assign n cb c.encoders })

abbrev message_or : String → String → String
message_or error other = if str_eq error "" then other else error

-- `restore` may itself throw, out of the handler.
unfoldable pub decode_answer : String → Reader → Answer Reader → Result (CallbackResult × Reader)
decode_answer n saved (gave true error r) = ok (outcome true true "", r)
decode_answer n saved (gave false error r) = restore (state saved) r >>= λ r'.
    ok (outcome true false (message_or error ("decode callback failed: " +s n)), r')
decode_answer n saved (threw what r) =
    restore (state saved) r >>= λ r'. ok (outcome true false what, r')

unfoldable pub decode_found :
    String → Option (Reader → Answer Reader) → Reader → Result (CallbackResult × Reader)
decode_found n none r = ok (outcome false false ("unknown decode callback: " +s n), r)
decode_found n (some cb) r = decode_answer n r (cb r)

unfoldable pub call_decoder : String → CallbackRegistry → Reader → Result (CallbackResult × Reader)
call_decoder n c r = decode_found n (lookup n c.decoders) r

abbrev pub rolled_back : Output → Output → Output
rolled_back saved o = record { out = resize (length saved.out) o.out; pos = saved.pos }

unfoldable pub encode_answer : String → Output → Answer Output → CallbackResult × Output
encode_answer n saved (gave true error o) =
    if ltb (length o.out) o.pos
    then (outcome true false ("encode callback advanced beyond output: " +s n), rolled_back saved o)
    else (outcome true true "", o)
encode_answer n saved (gave false error o) =
    (outcome true false (message_or error ("encode callback failed: " +s n)), rolled_back saved o)
encode_answer n saved (threw what o) = (outcome true false what, rolled_back saved o)

unfoldable pub encode_found :
    String → Option (Output → Answer Output) → Output → CallbackResult × Output
encode_found n none o = (outcome false false ("unknown encode callback: " +s n), o)
encode_found n (some cb) o = encode_answer n o (cb o)

unfoldable pub call_encoder : String → CallbackRegistry → Output → CallbackResult × Output
call_encoder n c o = encode_found n (lookup n c.encoders) o
