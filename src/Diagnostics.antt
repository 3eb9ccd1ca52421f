-- ===== src/Diagnostics.antt =====
-- diagnostics/Diagnostic.h and diagnostics/Diagnostic.cpp: error codes and the classification of the
-- messages that decoding and encoding stop with.
pub mod Direction
use Prim.Native.String.{len, find}
use embx.Prelude.{String, Bool, true, false, not, ◌&&◌, ◌||◌, leb, if◌then◌else◌}

pub data Code : Type 0 where
  none unknown_struct unknown_type missing_field invalid_value out_of_range input_truncated
        output_constraint variant_mismatch block_constraint expression_error internal :
      Code

unfoldable pub code_name : Code → String
code_name Code.none = "none"
code_name Code.unknown_struct = "unknown_struct"
code_name Code.unknown_type = "unknown_type"
code_name Code.missing_field = "missing_field"
code_name Code.invalid_value = "invalid_value"
code_name Code.out_of_range = "out_of_range"
code_name Code.input_truncated = "input_truncated"
code_name Code.output_constraint = "output_constraint"
code_name Code.variant_mismatch = "variant_mismatch"
code_name Code.block_constraint = "block_constraint"
code_name Code.expression_error = "expression_error"
code_name Code.internal = "internal"

abbrev pub has : String → String → Bool
has s x = leb (find s x) (len s)

abbrev refused : Bool → Code
refused encoding = if encoding then Code.output_constraint else Code.invalid_value

unfoldable pub classify : String → Bool → Code
classify m encoding =
    if has m "unknown struct"
    then Code.unknown_struct
    else if has m "unknown named type" || has m "unsupported scalar type" || has m "unknown type"
    then Code.unknown_type
    else if has m "missing field" || has m "missing variant"
    then Code.missing_field
    else if has m "callback" && (has m "not configured" || has m "direction is not valid")
    then refused encoding
    else if has m "no variant case" || has m "variant"
    then Code.variant_mismatch
    else if has m "block" && (has m "size" || has m "fill" || has m "exceed")
    then Code.block_constraint
    else if has m "expression" || has m "negative size" || has m "size overflow"
    then Code.expression_error
    else if not encoding && (has m "beyond reader limit" || has m "beyond input")
    then Code.input_truncated
    else if has m "out of range"
        || has m "exceeds"
        || has m "overflow"
        || has m "length mismatch"
        || has m "expected "
    then (if encoding then Code.out_of_range else Code.invalid_value)
    else refused encoding
