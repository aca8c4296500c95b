-- ===== src/Error/Report/Messages.antt =====
-- The messages of coded errors and of the public error (src/error.rs).
use minigraf.Prelude.{
  suc, length, true, false, Bool-cases, ◌==◌, ==_iff, ◌⊎◌, inl, inr, if◌then◌else◌, ℕ, ◌≡◌, refl,
  sym, ap, ◌∙◌, ◌≢◌, none, some, List, [], ◌∷◌, ◌++◌, map, append-nil, arith, All,
}
use minigraf.Prelude.Text.{Text, codes}
use minigraf.Error.{int000}
use minigraf.Error.Report.{
  placeholder_count, debug_format_template, format_template, registry_entry, CodedError, Cause,
  coded, other, minigraf_error, first_coded, public_error, next_arg, rest_args,
}

-- A piece of a template without a placeholder.
abbrev pub IsPlain : Text → Type 0
IsPlain = All (λ c. c ≢ b'{')

-- The template `head {} s₁ {} s₂ …` of its pieces.
abbrev pub template_of : Text → List Text → Text
template_of head [] = head
template_of head (s ∷ pieces) = head ++ (b'{' ∷ b'}' ∷ template_of s pieces)

-- The pieces with the arguments between them, one for each gap.
abbrev pub fill : Text → List Text → List Text → Text
fill head (s ∷ pieces) (a ∷ args) = head ++ (a ++ fill s pieces args)
fill head pieces args = head

format_plain_char :
    (c : ℕ) (rest : Text) (args : List Text)
    → c ≢ b'{'
    → format_template (c ∷ rest) args ≡ c ∷ format_template rest args
unfolding format_template
format_plain_char c [] args h = refl
format_plain_char c (d ∷ rest) args h = ground arith

format_plain :
    (p rest : Text) (args : List Text)
    → IsPlain p
    → format_template (p ++ rest) args ≡ p ++ format_template rest args
format_plain [] rest args h = refl
format_plain (c ∷ p) rest args (hc, h) =
    rw (format_plain_char c (p ++ rest) args hc, format_plain p rest args h)

format_hole :
    (rest : Text) (args : List Text)
    → format_template (b'{' ∷ b'}' ∷ rest) args
      ≡ next_arg args ++ format_template rest (rest_args args)
unfolding format_template
format_hole rest args = refl

format_nil : (args : List Text) → format_template [] args ≡ []
unfolding format_template
format_nil args = refl

format_only_plain : (p : Text) (args : List Text) → IsPlain p → format_template p args ≡ p
format_only_plain p args h =
    ap (λ t. format_template t args) (sym (append-nil p))
    ∙ format_plain p [] args h
    ∙ rw (format_nil, append-nil)

format_template-filled :
    (head : Text) (pieces args : List Text)
    → IsPlain head
    → All IsPlain pieces
    → length pieces ≡ length args
    → format_template (template_of head pieces) args ≡ fill head pieces args
format_template-filled head [] args h hs e = format_only_plain head args h
format_template-filled head (s ∷ pieces) [] h hs e = absurd (omega (arith, e))
format_template-filled head (s ∷ pieces) (a ∷ args) h (hs, hp) e =
    format_plain head (b'{' ∷ b'}' ∷ template_of s pieces) (a ∷ args) h
    ∙ ap (λ t. head ++ t)
        (format_hole (template_of s pieces) (a ∷ args)
          ∙ ap (λ t. a ++ t) (format_template-filled s pieces args hs hp (omega (arith, e))))

not_brace : (c : ℕ) → c ≢ b'{' → (c == b'{') ≡ false
not_brace c h = ground arith

count_plain_char :
    (c : ℕ) (rest : Text) → c ≢ b'{' → placeholder_count (c ∷ rest) ≡ placeholder_count rest
unfolding placeholder_count
count_plain_char c [] h = refl
count_plain_char c (d ∷ rest) h = rw (not_brace c h, placeholder_count) refl

count_plain : (p rest : Text) → IsPlain p → placeholder_count (p ++ rest) ≡ placeholder_count rest
count_plain [] rest h = refl
count_plain (c ∷ p) rest (hc, h) = count_plain_char c (p ++ rest) hc ∙ count_plain p rest h

placeholder_count-template_of :
    (head : Text) (pieces : List Text)
    → IsPlain head
    → All IsPlain pieces
    → placeholder_count (template_of head pieces) ≡ length pieces
unfolding placeholder_count
placeholder_count-template_of head [] h hs =
    ap placeholder_count (sym (append-nil head)) ∙ count_plain head [] h
placeholder_count-template_of head (s ∷ pieces) h (hs, hp) =
    count_plain head (b'{' ∷ b'}' ∷ template_of s pieces) h
    ∙ ap suc (placeholder_count-template_of s pieces hs hp)

-- A debug build of format_template, on a template made of pieces without `{` and the gaps between
-- them, panics if the arguments are not as many as the gaps, and otherwise puts the arguments, in
-- order, into the gaps.
pub debug_format_template-template_of :
    (head : Text) (pieces args : List Text)
    → IsPlain head
    → All IsPlain pieces
    → debug_format_template (template_of head pieces) args
      ≡ (if length pieces == length args then some (fill head pieces args) else none)
unfolding debug_format_template
debug_format_template-template_of head pieces args h hs =
    rw (placeholder_count-template_of head pieces h hs)
      (counted (Bool-cases (length pieces == length args)))
  where
    counted :
        (length pieces == length args) ≡ true ⊎ (length pieces == length args) ≡ false
        → (if length pieces == length args
            then some (format_template (template_of head pieces) args)
            else none)
          ≡ (if length pieces == length args then some (fill head pieces args) else none)
    counted (inl e) = rw e (
        ap some (
          format_template-filled head pieces args h hs
            ((==_iff (length pieces) (length args)).0 e)))
    counted (inr e) = rw e refl

-- The causes in front of the first coded one do not count.
abbrev pub coded_below : List Text → CodedError → List Cause → List Cause
coded_below [] e below = coded e ∷ below
coded_below (t ∷ contexts) e below = other t ∷ coded_below contexts e below

first_coded-coded_below :
    (contexts : List Text) (e : CodedError) (below : List Cause)
    → first_coded (coded_below contexts e below) ≡ some e
first_coded-coded_below [] e below = refl
first_coded-coded_below (t ∷ contexts) e below = first_coded-coded_below contexts e below

-- However many contexts are wrapped around a coded error, the public error has the code, the
-- category and the message of that coded error, the outermost one if several are in the chain.
pub minigraf_error-coded_below :
    (t : Text) (contexts : List Text) (e : CodedError) (below : List Cause)
    → (minigraf_error (coded e) below ≡ public_error e.code e.message)
      × (minigraf_error (other t) (coded_below contexts e below) ≡ public_error e.code e.message)
unfolding minigraf_error
minigraf_error-coded_below t contexts e below =
    (refl, rw (first_coded-coded_below contexts e below, minigraf_error))

first_coded-map-other : (us : List Text) → first_coded (map other us) ≡ none
first_coded-map-other [] = refl
first_coded-map-other (u ∷ us) = first_coded-map-other us

-- A chain with no coded error is reported as INT-000, with the text of the outermost error.
pub minigraf_error-map-other :
    (t : Text) (us : List Text)
    → minigraf_error (other t) (map other us)
      ≡ public_error int000 (codes "unclassified internal error: " ++ t)
unfolding minigraf_error registry_entry format_template
minigraf_error-map-other t us = rw (first_coded-map-other us, minigraf_error) (rw append-nil)
