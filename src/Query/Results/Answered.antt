-- ===== src/Query/Results/Answered.antt =====
-- A query with window functions answers one row for each binding (`apply_post_processing` of
-- src/query/datalog/executor.rs).
use minigraf.Prelude.{
  ℕ, zero, suc, ◌^◌, ◌<◌, ◌≡◌, refl, ◌∙◌, inl, inr, true, false, some, List, [], ◌∷◌, arith, length,
  All, any,
}
use minigraf.Error.{ok}
use minigraf.Query.Results.Total.{CanRun, apply_window_functions-ok}
use minigraf.Prelude.Text.{Text}
use minigraf.Prelude.Map.{lookup, bytes_key}
use minigraf.Graph.Value.{Value}
use minigraf.Query.Eval.{FloatArithmetic}
use minigraf.Query.Matcher.{Bindings}
use minigraf.Query.Aggregate.Registry.{Aggregates}
use minigraf.Query.Results.Specs.{FindSpec, win_key}
use minigraf.Query.Results.Groups.{is_window}
use minigraf.Query.Results.Windows.{row_at}
use minigraf.Query.Results.Pipeline.{
  project_row, project_find_specs, is_aggregate, apply_post_processing,
}
use minigraf.Query.Results.Columns.{IsVariable, not_win_key, CanSort}
use minigraf.Query.Results.Written.{BindsName}
use minigraf.Query.Results.Annotated.{IsWindowAt, apply_window_functions-IsAnnotated}

-- The row binds each plain variable of the find specs.
abbrev pub BindsVariables : List FindSpec → Bindings → Type 0
BindsVariables [] b = Unit {0}
BindsVariables (FindSpec.variable v ∷ specs) b =
    IsVariable v × BindsName v b × BindsVariables specs b
BindsVariables (spec ∷ specs) b = BindsVariables specs b

-- The values of an answer at the plain variables are those of the binding; the answer has one
-- value for each find spec.
abbrev pub IsAnswerRow : List FindSpec → Bindings → List Value → Type 0
IsAnswerRow [] b [] = Unit {0}
IsAnswerRow [] b (v ∷ row) = ⊥
IsAnswerRow (spec ∷ specs) b [] = ⊥
IsAnswerRow (FindSpec.variable x ∷ specs) b (v ∷ row) =
    (lookup x b ≡ some v) × IsAnswerRow specs b row
IsAnswerRow (FindSpec.window ws ∷ specs) b (v ∷ row) = IsAnswerRow specs b row
IsAnswerRow (FindSpec.aggregate func var ∷ specs) b (v ∷ row) = IsAnswerRow specs b row

-- One answer for each binding, in order.
abbrev pub AreAnswers : List FindSpec → List Bindings → List (List Value) → Type 0
AreAnswers specs [] [] = Unit {0}
AreAnswers specs [] (row ∷ rows) = ⊥
AreAnswers specs (b ∷ bs) [] = ⊥
AreAnswers specs (b ∷ bs) (row ∷ rows) = IsAnswerRow specs b row × AreAnswers specs bs rows

Projects : ℕ → List FindSpec → Bindings → Bindings → Type 0
Projects n specs b after =
    (row : List Value) × (project_row n specs after ≡ some row) × IsAnswerRow specs b row

-- A row with a value for each window function is projected whole.
project_row-IsAnswerRow :
    (n : ℕ) (specs : List FindSpec) (b after : Bindings)
    → any is_aggregate specs ≡ false
    → BindsVariables specs b
    → ((x : Text) → ((i : ℕ) → ¬ (win_key i ≡ x)) → lookup x after ≡ lookup x b)
    → ((i : ℕ) → IsWindowAt i n specs → BindsName (win_key i) after)
    → Projects n specs b after
unfolding project_row Projects
project_row-IsAnswerRow n [] b after plain binds others windows = ([], refl, tt)
project_row-IsAnswerRow n (FindSpec.variable v ∷ specs) b after plain (is_var, (w, bound), binds)
      others windows =
    let (row, e, answer) =
      project_row-IsAnswerRow (suc n) specs b after plain binds others windows in
    let found : lookup v after ≡ some w = others v (not_win_key v is_var) ∙ bound in
    (w ∷ row, rw (found, e) refl, (bound, answer))
project_row-IsAnswerRow n (FindSpec.window ws ∷ specs) b after plain binds others windows =
    let (row, e, answer) =
      project_row-IsAnswerRow (suc n) specs b after plain binds others
        (λ i at. windows i (inr at)) in
    let (w, found) = windows n (inl refl) in (w ∷ row, rw (found, e) refl, answer)
project_row-IsAnswerRow n (FindSpec.aggregate func var ∷ specs) b after plain binds others windows =
    cc

project_find_specs-AreAnswers :
    (specs : List FindSpec) (bs next : List Bindings)
    → length next ≡ length bs
    → ((k : ℕ) → k < length bs → Projects 0 specs (row_at k bs) (row_at k next))
    → AreAnswers specs bs (project_find_specs specs next)
unfolding project_find_specs row_at Projects
project_find_specs-AreAnswers specs [] [] e each = tt
project_find_specs-AreAnswers specs [] (c ∷ next) e each = absurd (omega (arith, e))
project_find_specs-AreAnswers specs (b ∷ bs) [] e each = absurd (omega (arith, e))
project_find_specs-AreAnswers specs (b ∷ bs) (c ∷ next) e each =
    let (row, projected, answer) = each 0 (omega arith) in
    rw projected (
      answer,
      project_find_specs-AreAnswers specs bs next (omega (arith, e))
          (λ k below. each (suc k) (omega arith)),
    )

Binds-row_at :
    (specs : List FindSpec) (bs : List Bindings) (k : ℕ)
    → All (BindsVariables specs) bs
    → k < length bs
    → BindsVariables specs (row_at k bs)
unfolding row_at
Binds-row_at specs [] k all below = absurd (omega arith)
Binds-row_at specs (b ∷ bs) zero (here, all) below = here
Binds-row_at specs (b ∷ bs) (suc k) (here, all) below = Binds-row_at specs bs k all (omega arith)

-- A query with window functions and plain variables, which begin with `?`, without aggregates, whose
-- accumulating functions are registered and whose rows bind the plain variables, answers one row
-- for each binding, in order, with the bound values at the plain variables and one value for each
-- find spec. There are less than 2^63 rows, and each window function orders them by a variable whose
-- values in the rows are all integers, all strings, all floats without a NaN, or all of other types,
-- null for a row without a value.
pub apply_post_processing-AreAnswers :
    {Any : Type 0} (f64 : FloatArithmetic) (registry : Aggregates Any) (bs : List Bindings)
    (specs : List FindSpec) (with_vars : List Text)
    → any is_aggregate specs ≡ false
    → any is_window specs ≡ true
    → All (CanRun registry) specs
    → All (CanSort bs) specs
    → length bs < 2 ^ 63
    → All (BindsVariables specs) bs
    → (rows : List (List Value)) × (apply_post_processing f64 bs specs with_vars registry
        ≡ some (ok rows))
      × AreAnswers specs bs rows
unfolding apply_post_processing
apply_post_processing-AreAnswers f64 registry bs specs with_vars plain windows ready sortable small
      binds =
    let (next, annotated) =
      apply_window_functions-ok f64 registry 0 specs bs ready sortable small in
    let a = apply_window_functions-IsAnnotated f64 registry 0 specs bs next annotated in
    (
      project_find_specs specs next,
      rw (plain, windows, annotated) refl,
      project_find_specs-AreAnswers specs bs next a.rows (λ k below.
          project_row-IsAnswerRow 0 specs (row_at k bs) (row_at k next) plain
            (Binds-row_at specs bs k binds below) (a.others k) (λ i at. a.windows i k at below)),
    )
