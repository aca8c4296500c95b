-- ===== src/Error/Report/Tests.antt =====
-- The error theorems at concrete inputs.
use minigraf.Prelude.Text.{codes}
use minigraf.Error.{stg001, int000, prs002}
use minigraf.Prelude.{some, none, ◌≡◌, refl, [], ◌∷◌, arith}
use minigraf.Error.Report.{
  registry_entry, placeholder_count, debug_format_template, CodedError, coded, other,
  minigraf_error, public_error,
}
use minigraf.Error.Report.Messages.{
  debug_format_template-template_of, minigraf_error-coded_below, minigraf_error-map-other,
}

stg001_text : (registry_entry stg001).0 ≡ "STG-001"
unfolding registry_entry
stg001_text = refl

-- The call of the test `format_template_arg_count_mismatch_debug_asserts`.
mismatch : debug_format_template (codes "value: {}") [] ≡ none
unfolding debug_format_template placeholder_count
mismatch = refl

debug_format_template-template_of_example :
    debug_format_template (codes "a {} b {}") (codes "x" ∷ codes "y" ∷ []) ≡ some (codes "a x b y")
debug_format_template-template_of_example =
    debug_format_template-template_of (codes "a ") (codes " b " ∷ [] ∷ [])
      (codes "x" ∷ codes "y" ∷ []) (omega arith) (omega arith)

abbrev bad_char : CodedError
bad_char = record { code = prs002; message = codes "Unexpected character: x" }

minigraf_error-coded_below_example :
    (minigraf_error (coded bad_char) [] ≡ public_error prs002 (codes "Unexpected character: x"))
    × (minigraf_error (other (codes "ctx")) (coded bad_char ∷ [])
        ≡ public_error prs002 (codes "Unexpected character: x"))
minigraf_error-coded_below_example = minigraf_error-coded_below (codes "ctx") [] bad_char []

minigraf_error-map-other_example :
    minigraf_error (other (codes "io")) (other (codes "disk") ∷ [])
    ≡ public_error int000 (codes "unclassified internal error: io")
minigraf_error-map-other_example = minigraf_error-map-other (codes "io") (codes "disk" ∷ [])
