-- ===== src/Diagnostics/Direction.antt =====
-- diagnostics/Diagnostic.cpp: the codes that each direction reports, and their names.
use embx.Prelude.{◌≡◌, arith, String, Bool, true, false, not}
use embx.Diagnostics.{Code, classify}

-- Whether a code belongs to one direction: the first two to decoding, the next two to encoding.
abbrev pub is_reported : Bool → Code → Bool
is_reported encoding Code.input_truncated = not encoding
is_reported encoding Code.invalid_value = not encoding
is_reported encoding Code.out_of_range = encoding
is_reported encoding Code.output_constraint = encoding
is_reported encoding Code.none = false
is_reported encoding Code.internal = false
is_reported encoding _ = true

-- A message of decoding is never classified as `OutOfRange` or `OutputConstraint`, one of encoding never
-- as `InvalidValue` or `InputTruncated`, and neither as `None` or `Internal`.
pub classify-reported :
    (message : String) (encoding : Bool) → is_reported encoding (classify message encoding) ≡ true
unfolding classify
classify-reported message true = ground arith
classify-reported message false = ground arith
