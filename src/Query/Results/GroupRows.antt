-- ===== src/Query/Results/GroupRows.antt =====
-- The rows that `compute_aggregation` answers (src/query/datalog/executor.rs).
use minigraf.Prelude.{
  get_elem?, ℕ, ◌≡◌, refl, sym, ap, ◌∙◌, ◌⊎◌, inl, inr, Option, none, some, List, [], ◌∷◌,
}
use minigraf.Error.{Failure, Result, ok, err, ◌>>=◌, ok-of_bind}
use minigraf.Error.{ok_injective}
use minigraf.Prelude.Text.{Text}
use minigraf.Prelude.Map.{lookup, bytes_key}
use minigraf.Graph.Value.{Value}
use minigraf.Query.Eval.{FloatArithmetic}
use minigraf.Query.Matcher.{Bindings}
use minigraf.Query.Aggregate.Registry.{Aggregates}
use minigraf.Query.Results.Specs.{FindSpec, agg_key}
use minigraf.Query.Results.Groups.{RowGroups, group_rows, group_var_names}
use minigraf.Query.Results.Aggregation.{
  key_positions, insert_keys, and_row, aggregate_row, aggregate_groups, compute_aggregation,
}
use mathlib.Core.Path.{subst}
use minigraf.Query.Results.KeyValues.{TakesKey, insert_keys-TakesKey}
use minigraf.Query.Results.Groups.{variable_names}
use minigraf.Query.Results.Columns.{IsVariable}
use minigraf.Query.Results.GroupRow.{
  IsGroupAnswer, Untouched, FailsWith, aggregate_row-IsGroupAnswer, aggregate_row-FailsWith,
  err_injective,
}

-- Each plain variable has in the row the value that the key of the group has at an occurrence of
-- the variable.
abbrev pub KeepsKey : List FindSpec → List Value → Option Bindings → Type 0
KeepsKey specs key none = Unit {0}
KeepsKey specs key (some row) =
    (k : ℕ) (v : Text)
    → IsVariable v
    → get_elem? (variable_names specs) k ≡ some v
    → TakesKey specs key v (lookup v row)

not_agg_key : (v : Text) → IsVariable v → (i : ℕ) → ¬ (agg_key i ≡ v)
not_agg_key v (rest, e) i h = differ (h ∙ e)
  where
    differ : {text : Text} → ¬ (◌≡◌ {A = Text} (95 ∷ text) (63 ∷ rest))
    differ k = cc

Untouched-KeepsKey :
    (specs : List FindSpec) (key : List Value) (answer : Option Bindings)
    → Untouched 0 (insert_keys key (key_positions 0 specs []) []) answer
    → KeepsKey specs key answer
Untouched-KeepsKey specs key none h = tt
Untouched-KeepsKey specs key (some row) h = λ k v is_var at.
    subst (TakesKey specs key v) (sym (h v (λ j later. not_agg_key v is_var j)))
      (insert_keys-TakesKey specs key k v at)

-- The answers with the one of a group in front, if it has one.
abbrev pub IsAnswersWith : Option Bindings → List Bindings → List Bindings → Type 0
IsAnswersWith none rest answers = answers ≡ rest
IsAnswersWith (some row) rest answers = answers ≡ row ∷ rest

and_row-IsAnswersWith :
    (answer : Option Bindings) (rest answers : List Bindings)
    → answers ≡ and_row answer rest
    → IsAnswersWith answer rest answers
and_row-IsAnswersWith none rest answers e = e
and_row-IsAnswersWith (some row) rest answers e = e

module _ {Any : Type 0} (f64 : FloatArithmetic) (registry : Aggregates Any) where
  -- The answers are those of the groups, in order, less the groups that lack a value.
  abbrev pub AreGroupAnswers : List FindSpec → RowGroups → List Bindings → Type 0
  AreGroupAnswers specs [] answers = answers ≡ []
  AreGroupAnswers specs ((key, rows) ∷ groups) answers =
      (answer : Option Bindings) × (rest : List Bindings) × IsAnswersWith answer rest answers
      × IsGroupAnswer f64 registry rows 0 specs answer
      × KeepsKey specs key answer
      × AreGroupAnswers specs groups rest

  aggregate_groups-AreGroupAnswers :
      (specs : List FindSpec) (groups : RowGroups) (answers : List Bindings)
      → aggregate_groups f64 registry specs groups ≡ ok answers
      → AreGroupAnswers specs groups answers
  unfolding aggregate_groups
  aggregate_groups-AreGroupAnswers specs [] answers h = sym (ok_injective h)
  aggregate_groups-AreGroupAnswers specs ((key, rows) ∷ groups) answers h =
      let (answer, first, later) =
        ok-of_bind
          (aggregate_row f64 registry rows 0 specs (insert_keys key (key_positions 0 specs []) []))
          (λ a. aggregate_groups f64 registry specs groups >>= λ r. ok (and_row a r)) h in
      let (rest, others, all) =
        ok-of_bind (aggregate_groups f64 registry specs groups) (λ r. ok (and_row answer r))
          later in
      let (has, kept) =
        aggregate_row-IsGroupAnswer f64 registry rows 0 specs
          (insert_keys key (key_positions 0 specs []) []) answer first in
      (
        answer,
        rest,
        and_row-IsAnswersWith answer rest answers (sym (ok_injective all)),
        has,
        Untouched-KeepsKey specs key answer kept,
        aggregate_groups-AreGroupAnswers specs groups rest others,
      )

  abbrev pub SomeFails : Failure → List FindSpec → RowGroups → Type 0
  SomeFails f specs [] = ⊥
  SomeFails f specs ((key, rows) ∷ groups) =
      FailsWith f64 registry f rows specs ⊎ SomeFails f specs groups

  aggregate_groups-SomeFails :
      (specs : List FindSpec) (groups : RowGroups) (f : Failure)
      → aggregate_groups f64 registry specs groups ≡ err f
      → SomeFails f specs groups
  unfolding aggregate_groups
  aggregate_groups-SomeFails specs [] f h = cc
  aggregate_groups-SomeFails specs ((key, rows) ∷ groups) f h =
      split
        (aggregate_row f64 registry rows 0 specs (insert_keys key (key_positions 0 specs []) []))
        (aggregate_groups f64 registry specs groups) h
        (aggregate_row-FailsWith f64 registry rows 0 specs
          (insert_keys key (key_positions 0 specs []) []) f)
        (aggregate_groups-SomeFails specs groups f)
    where
      split :
          (first : Result (Option Bindings)) (later : Result (List Bindings))
          → (first >>= λ a. later >>= λ r. ok (and_row a r)) ≡ err f
          → (first ≡ err f → FailsWith f64 registry f rows specs)
          → (later ≡ err f → SomeFails f specs groups)
          → FailsWith f64 registry f rows specs ⊎ SomeFails f specs groups
      split (err g) later k here there = inl (here (ap err (err_injective k)))
      split (ok a) (err g) k here there = inr (there (ap err (err_injective k)))
      split (ok a) (ok r) k here there = cc

  abbrev pub IsAggregation : List FindSpec → RowGroups → Result (List Bindings) → Type 0
  IsAggregation specs groups (ok answers) = AreGroupAnswers specs groups answers
  IsAggregation specs groups (err f) = SomeFails f specs groups

  -- For one row or more, compute_aggregation answers, group by group, a row that holds for each
  -- aggregate what its function answers over the values of the group that are bound and not null,
  -- and for each plain variable, which begins with `?`, the value of the group's key at an
  -- occurrence of the variable; it leaves out exactly groups in which a function has no value
  -- (INT-042); or it fails with another error, one of a function over a group. A built-in function
  -- answers by apply_builtin_aggregate, a user-defined one the final value of its steps, or null
  -- for no values, and INT-029 stands for an unknown one.
  pub compute_aggregation-IsAggregation :
      (b : Bindings) (bs : List Bindings) (specs : List FindSpec) (with_vars : List Text)
      → IsAggregation specs
          (group_rows (group_var_names specs with_vars) [] (b ∷ bs))
          (compute_aggregation f64 (b ∷ bs) specs with_vars registry)
  unfolding compute_aggregation
  compute_aggregation-IsAggregation b bs specs with_vars =
      either
        (aggregate_groups f64 registry specs
          (group_rows (group_var_names specs with_vars) [] (b ∷ bs)))
        refl
    where
      either :
          (r : Result (List Bindings))
          → aggregate_groups f64 registry specs
              (group_rows (group_var_names specs with_vars) [] (b ∷ bs))
            ≡ r
          → IsAggregation specs (group_rows (group_var_names specs with_vars) [] (b ∷ bs)) r
      either (ok answers) e = aggregate_groups-AreGroupAnswers specs _ answers e
      either (err f) e = aggregate_groups-SomeFails specs _ f e
