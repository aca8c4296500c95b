-- ===== src/Error/Report/Lookup.antt =====
-- Every code has its own row of the registry, told apart by its text (src/error.rs).
use text.Mathlib.Text.{◌==◌ as str_eq}
use minigraf.Prelude.{◌≡◌, refl, List, [], ◌∷◌, String, Option, none, some, if◌then◌else◌}
use minigraf.Error.{ErrorCode, prs001}
use minigraf.Error.Registry.{Row, registry}
use minigraf.Error.Report.{registry_entry}

-- The code that a text such as "STG-001" stands for.
abbrev pub code_of_text : String → List Row → Option ErrorCode
code_of_text t [] = none
code_of_text t (r ∷ rows) = if str_eq r.text t then some r.code else code_of_text t rows

-- The text of every error code is that of no other code: reading the text back in the registry
-- gives the code, so the fallback to INT-000 is taken for no code.
pub code_of_text-registry_entry :
    (c : ErrorCode) → code_of_text (registry_entry c).0 registry ≡ some c
unfolding registry_entry
code_of_text-registry_entry prs001 = refl
code_of_text-registry_entry _ = refl
