-- ===== src/Error/Report.antt =====
-- src/error.rs: the lookup of a code, the message of a coded error, and the public error that a
-- chain of causes turns into.
pub mod Lookup
pub mod Messages
mod Tests
use minigraf.Prelude.{
  ℕ, suc, length, true, false, ◌&&◌, List, [], ◌∷◌, ◌++◌, String, Option, none, some, ◌==◌,
  if◌then◌else◌,
}
use minigraf.Prelude.Text.{Text, codes}
use minigraf.Error.{ErrorCode, ErrorCategory, discriminant, int000, internal}
use minigraf.Error.Registry.{Row, registry}

-- `REGISTRY.iter().find(|(c, ..)| *c == code)`
abbrev pub find_row : ErrorCode → List Row → Option Row
find_row code [] = none
find_row code (r ∷ rows) =
    if discriminant r.code == discriminant code then some r else find_row code rows

abbrev pub entry_of : Option Row → String × String × ErrorCategory
entry_of (some r) = (r.text, r.template, r.category)
entry_of none = ("INT-000", "unclassified internal error: {}", internal)

-- `registry_entry`
unfoldable pub registry_entry : ErrorCode → String × String × ErrorCategory
registry_entry code = entry_of (find_row code registry)

-- `if let Some(arg) = args.next() { out.push_str(arg) }`
abbrev pub next_arg : List Text → Text
next_arg [] = []
next_arg (a ∷ args) = a

abbrev pub rest_args : List Text → List Text
rest_args [] = []
rest_args (a ∷ args) = args

-- `template.matches("{}").count()`
unfoldable pub placeholder_count : Text → ℕ
placeholder_count [] = 0
placeholder_count (c ∷ []) = 0
placeholder_count (c ∷ d ∷ rest) = elim (c == b'{' && d == b'}') [
  | true ↦ suc (placeholder_count rest)
  | false ↦ placeholder_count (d ∷ rest)
]

-- `format_template` without its `debug_assert_eq!`, as a release build runs it: each leftmost `{}`
-- of what is left takes the next argument.
unfoldable pub format_template : Text → List Text → Text
format_template [] args = []
format_template (c ∷ []) args = c ∷ []
format_template (c ∷ d ∷ rest) args = elim (c == b'{' && d == b'}') [
  | true ↦ next_arg args ++ format_template rest (rest_args args)
  | false ↦ c ∷ format_template (d ∷ rest) args
]

-- `format_template` in a debug build; `none` is the panic of its `debug_assert_eq!`.
unfoldable pub debug_format_template : Text → List Text → Option Text
debug_format_template template args =
    if placeholder_count template == length args then some (format_template template args) else none

-- `CodedError`
pub record CodedError : Type 0 where
  pub code : ErrorCode
  pub message : Text

-- `CodedError::new`
pub coded_error : ErrorCode → List Text → CodedError
coded_error code args = record {
  code = code;
  message = format_template (codes (registry_entry code).1) args;
}

-- One link of an `anyhow::Error` chain: a coded error, or any other error with its text.
pub data Cause : Type 0 where
  coded : CodedError → Cause
  other : Text → Cause

abbrev pub to_string : Cause → Text
to_string (coded e) = e.message
to_string (other t) = t

-- `MinigrafError`; the source error that it keeps is the chain itself.
pub record MinigrafError : Type 0 where
  pub category : ErrorCategory
  pub code : String
  pub message : Text

abbrev first_coded : List Cause → Option CodedError
first_coded [] = none
first_coded (coded e ∷ chain) = some e
first_coded (other t ∷ chain) = first_coded chain

abbrev public_error : ErrorCode → Text → MinigrafError
public_error c m = record {
  category = (registry_entry c).2;
  code = (registry_entry c).0;
  message = m;
}

-- `MinigrafError::from`; the outermost error is `outer`, and `causes` are those below it.
pub minigraf_error : Cause → List Cause → MinigrafError
minigraf_error outer causes = elim (first_coded (outer ∷ causes)) [
  | some e ↦ public_error e.code e.message
  | none ↦
      public_error int000 (format_template (codes (registry_entry int000).1) (to_string outer ∷ []))
]
