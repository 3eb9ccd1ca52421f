-- ===== src/Tests/Calls.antt =====
-- runtime/Runtime.cpp: a decode and an encode callback that fail.
use embx.Prelude.{◌≡◌, refl, ap, false, Option, none, some, [], ◌∷◌, arith}
use embx.Prelude.Map.{text_key, lookup}
use embx.Runtime.Host.{little}
use embx.Runtime.Reader.{Reader}
use embx.Runtime.Reader.Wf.{IsWf}
use embx.Runtime.Callbacks.{
  CallbackRegistry, Answer, gave, threw, Output, call_decoder, call_encoder,
}
use embx.Runtime.Callbacks.Rollback.{
  KeepsInput, IsRolledBack, IsContained, call_decoder-IsRolledBack, call_encoder-IsContained,
}

-- The decoder skips a byte and reports a failure; the encoder shortens the output and throws.
abbrev skipping : Reader → Answer Reader
skipping r = gave false "no" (record r { p = 2 })

abbrev shortening : Output → Answer Output
shortening o = threw "stop" (record { out = []; pos = 9 })

abbrev registry : CallbackRegistry
registry = record { decoders = ("skip", skipping) ∷ []; encoders = ("cut", shortening) ∷ [] }

abbrev whole : Reader
whole = record {
  d = 1 ∷ 2 ∷ 3 ∷ [];
  p = 1;
  limit = 3;
  e = little;
  limits = [];
  bit_container = 0;
  bit_remaining = 0;
}

whole-IsWf : IsWf whole
whole-IsWf = record {
  within = omega arith;
  nested = refl;
  fits = omega arith;
  contents = (omega arith, (omega arith, (omega arith, tt)));
  open_bits = omega arith;
}

abbrev from_some :
    (Reader → Answer Reader) → Option (Reader → Answer Reader) → Reader → Answer Reader
from_some cb none = cb
from_some cb (some other) = other

skipping-KeepsInput :
    (cb : Reader → Answer Reader) → lookup "skip" registry.decoders ≡ some cb → KeepsInput cb
unfolding lookup
skipping-KeepsInput cb h r =
    let same : skipping ≡ cb = ap (from_some skipping) h in rw (← same) refl

call_decoder-IsRolledBack_example : IsRolledBack whole (call_decoder "skip" registry whole)
call_decoder-IsRolledBack_example =
    call_decoder-IsRolledBack "skip" registry whole whole-IsWf refl skipping-KeepsInput

abbrev written : Output
written = record { out = 1 ∷ 2 ∷ []; pos = 2 }

call_encoder-IsContained_example : IsContained written (call_encoder "cut" registry written)
call_encoder-IsContained_example = call_encoder-IsContained "cut" registry written
