-- ===== src/Query/Results/Pipeline.antt =====
-- `apply_post_processing`, `extract_variables` and `project_find_specs` of
-- src/query/datalog/executor.rs.
use minigraf.Prelude.{
  ℕ, suc, Bool, true, false, not, ◌&&◌, Option, none, some, List, [], ◌∷◌, ◌==◌, if◌then◌else◌,
  length, any,
}
use minigraf.Error.{Result, ok}
use minigraf.Prelude.Text.{Text}
use minigraf.Prelude.Map.{lookup, bytes_key}
use minigraf.Graph.Value.{Value}
use minigraf.Query.Eval.{FloatArithmetic}
use minigraf.Query.Matcher.{Bindings}
use minigraf.Query.Aggregate.Registry.{Aggregates}
use minigraf.Query.Results.Specs.{FindSpec, spec_var, agg_key, win_key}
use minigraf.Query.Results.Groups.{is_window}
use minigraf.Query.Results.Aggregation.{compute_aggregation}
use minigraf.Query.Results.Windows.{then_run, apply_window_functions}

abbrev pub taken_value : Option Value → List Value → List Value
taken_value none rest = []
taken_value (some v) rest = v ∷ rest

-- The values up to the first variable that is not bound.
unfoldable pub bound_values : List FindSpec → Bindings → List Value
bound_values [] binding = []
bound_values (spec ∷ specs) binding =
    taken_value (lookup (spec_var spec) binding) (bound_values specs binding)

-- `extract_variables`
unfoldable pub extract_variables : List FindSpec → List Bindings → List (List Value)
extract_variables specs [] = []
extract_variables specs (binding ∷ bindings) =
    let row = bound_values specs binding in
    let rest = extract_variables specs bindings in
    if length row == length specs then row ∷ rest else rest

abbrev pub and_value : Option Value → Option (List Value) → Option (List Value)
and_value (some v) (some row) = some (v ∷ row)
and_value v row = none

-- The name under which the value of the i-th find spec is kept.
abbrev pub value_key : ℕ → FindSpec → Text
value_key i (FindSpec.variable v) = v
value_key i (FindSpec.aggregate func var) = agg_key i
value_key i (FindSpec.window ws) = win_key i

unfoldable pub project_row : ℕ → List FindSpec → Bindings → Option (List Value)
project_row i [] binding = some []
project_row i (spec ∷ specs) binding =
    and_value (lookup (value_key i spec) binding) (project_row (suc i) specs binding)

abbrev pub or_skip : Option (List Value) → List (List Value) → List (List Value)
or_skip none rest = rest
or_skip (some row) rest = row ∷ rest

-- `project_find_specs`
unfoldable pub project_find_specs : List FindSpec → List Bindings → List (List Value)
project_find_specs specs [] = []
project_find_specs specs (binding ∷ bindings) =
    or_skip (project_row 0 specs binding) (project_find_specs specs bindings)

abbrev pub is_aggregate : FindSpec → Bool
is_aggregate (FindSpec.aggregate func var) = true
is_aggregate spec = false

module _ {Any : Type 0} (f64 : FloatArithmetic) where
  -- `apply_post_processing`; `none` is a sort whose answer is not specified.
  unfoldable pub apply_post_processing :
      List Bindings
      → List FindSpec
      → List Text
      → Aggregates Any
      → Option (Result (List (List Value)))
  apply_post_processing bindings specs with_vars registry =
      let has_aggregates = any is_aggregate specs in
      let has_windows = any is_window specs in
      if not has_aggregates && not has_windows
      then some (ok (extract_variables specs bindings))
      else then_run
          (some (
            if has_aggregates
            then compute_aggregation f64 bindings specs with_vars registry
            else ok bindings))
          (λ collapsed.
            then_run
              (if has_windows
                then apply_window_functions f64 registry 0 specs collapsed
                else some (ok collapsed))
              (λ annotated. some (ok (project_find_specs specs annotated))))
