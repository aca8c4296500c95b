-- ===== src/Query/Results/Tests.antt =====
-- Tests of the results of a query (src/query/datalog/executor.rs) and of its aggregate functions
-- (src/query/datalog/functions.rs).
use minigraf.Prelude.{
  ℕ, ◌+◌, ◌-◌, ◌*◌, ◌/◌, ◌%◌, ◌^◌, ◌≡◌, refl, none, some, List, [], ◌∷◌, arith, All,
}
use minigraf.Error.{ok}
use mathlib.Core.List.{Perm}
use minigraf.Prelude.Int.{pos, cast_unsigned}
use minigraf.Prelude.Text.{Text, codes}
use minigraf.Prelude.OrderedMap.Entries.{IsIn}
use minigraf.Graph.Value.{Value, cmp}
use minigraf.Graph.Value.Equal.{value_eq}
use minigraf.Query.Aggregate.{value_lt, value_cmp}
use minigraf.Query.Eval.{FloatArithmetic}
use minigraf.Query.Matcher.{Bindings}
use minigraf.Query.Aggregate.Batch.{
  has_variant, lowest, ordering, fold_extreme, extreme_of, aggregated, builtin_of,
  apply_builtin_aggregate,
}
use minigraf.Query.Aggregate.Extremes.{Beats, extreme_of-best}
use minigraf.Query.Aggregate.Registry.{Aggregates, with_builtins}
use minigraf.Query.Results.Specs.{digits, FindSpec, WindowFunc, Order}
use minigraf.Query.Results.Groups.{
  compare_group_keys, add_row, variable_names, group_rows, group_var_names,
}
use minigraf.Query.Results.Aggregation.{
  present, key_positions, insert_keys, aggregate_row, aggregate_groups, compute_aggregation,
}
use minigraf.Query.Results.Windows.{
  row_at, add_index, partition_rows, row_numbers, running, set_value, write_values,
  window_partitions, apply_window_functions,
}
use minigraf.Query.Results.SortBy.{all_keys, sort_by, insert_keyed, sort_keyed}
use minigraf.Query.Results.Sortable.{integers}
use minigraf.Query.Results.Pipeline.{project_row, project_find_specs, apply_post_processing}
use minigraf.Query.Results.Running.{not_null, window_values-apply_builtin_aggregate}
use minigraf.Query.Results.Partition.{rows_of, IsGroup, IsAscending, group_rows-IsPartition}
use minigraf.Query.Results.GroupRows.{IsAggregation, compute_aggregation-IsAggregation}
use minigraf.Query.Results.Answered.{AreAnswers, apply_post_processing-AreAnswers}

-- Arithmetic on bit patterns; the numbers of the tests are small.
abbrev bit_arithmetic : FloatArithmetic
bit_arithmetic = record {
  of_i64 = cast_unsigned;
  add = λ a b. (a + b) % 2 ^ 64;
  sub = λ a b. (a + (2 ^ 64 - b % 2 ^ 64)) % 2 ^ 64;
  mul = λ a b. (a * b) % 2 ^ 64;
  div = λ a b. (a / b) % 2 ^ 64;
}

-- User-defined functions accumulate a number.
abbrev functions : Aggregates ℕ
functions = with_builtins bit_arithmetic pos

abbrev row : Text → ℕ → Bindings
row dept pay = (codes "?d", Value.string dept) ∷ (codes "?p", Value.integer (pos pay)) ∷ []

abbrev staff : List Bindings
staff = row (codes "a") 30 ∷ row (codes "b") 20 ∷ row (codes "a") 10 ∷ []

-- The number of a row within its department, by pay, and the pay so far.
abbrev by_pay : WindowFunc → FindSpec
by_pay func = FindSpec.window record {
  func = func;
  var = some (codes "?p");
  partition_by = some (codes "?d");
  order_by = codes "?p";
  order = Order.asc;
}

abbrev ranked : List FindSpec
ranked = FindSpec.variable (codes "?p") ∷ by_pay WindowFunc.row_number ∷ by_pay WindowFunc.min_ ∷ []

abbrev counted : List FindSpec
counted =
    FindSpec.variable (codes "?d")
    ∷ FindSpec.aggregate (codes "count") (codes "?p")
    ∷ FindSpec.aggregate (codes "max") (codes "?p")
    ∷ []

abbrev int : ℕ → Value
int n = Value.integer (pos n)

ranked_answers :
    apply_post_processing bit_arithmetic staff ranked [] functions
    ≡ some (
        ok (
          (int 30 ∷ int 2 ∷ int 10 ∷ [])
          ∷ (int 20 ∷ int 1 ∷ int 20 ∷ [])
          ∷ (int 10 ∷ int 1 ∷ int 10 ∷ [])
          ∷ []))
unfolding apply_post_processing apply_window_functions partition_rows add_index window_partitions
    all_keys sort_keyed insert_keyed row_numbers running row_at write_values set_value
    project_find_specs project_row digits value_cmp value_lt value_eq
ranked_answers = refl

-- The columns that `sort_by` may panic on.
mixed_column :
    sort_by (value_cmp bit_arithmetic) ((int 2, 0) ∷ (Value.null, 1) ∷ (int 1, 2) ∷ []) ≡ none
unfolding all_keys value_cmp
mixed_column = refl

counted_answers :
    apply_post_processing bit_arithmetic staff counted [] functions
    ≡ some (
        ok (
          (Value.string (codes "a") ∷ int 2 ∷ int 30 ∷ [])
          ∷ (Value.string (codes "b") ∷ int 1 ∷ int 20 ∷ [])
          ∷ []))
unfolding apply_post_processing compute_aggregation group_rows add_row compare_group_keys
    variable_names aggregate_groups aggregate_row key_positions insert_keys present
    project_find_specs project_row digits cmp apply_builtin_aggregate aggregated builtin_of
    extreme_of fold_extreme has_variant ordering
counted_answers = refl

apply_post_processing-AreAnswers_example :
    (rows : List (List Value)) × (apply_post_processing bit_arithmetic staff ranked [] functions
      ≡ some (ok rows))
    × AreAnswers ranked staff rows
apply_post_processing-AreAnswers_example =
    apply_post_processing-AreAnswers bit_arithmetic functions staff ranked [] refl refl
      (tt, (tt, ((_, refl), tt)))
      (
        tt,
        (
          ((_, refl), (integers, (tt, (tt, (tt, tt))))),
          (((_, refl), (integers, (tt, (tt, (tt, tt))))), tt),
        ),
      )
      (omega arith)
      (((_, refl), (_, refl), tt), (((_, refl), (_, refl), tt), (((_, refl), (_, refl), tt), tt)))

abbrev pays : List Value
pays = int 30 ∷ Value.null ∷ int 10 ∷ []

abbrev keyed : List (Value × ℕ)
keyed = (int 1, 0) ∷ (int 2, 1) ∷ (int 3, 2) ∷ []

window_values-apply_builtin_aggregate_example : int 10 ≡ int 10
unfolding running value_lt apply_builtin_aggregate builtin_of aggregated extreme_of fold_extreme
    has_variant ordering not_null
window_values-apply_builtin_aggregate_example =
    window_values-apply_builtin_aggregate bit_arithmetic pos ℕ WindowFunc.min_ keyed pays
      (int 30 ∷ int 30 ∷ int 10 ∷ []) 2 (int 10) (int 10) tt (λ e. cc) refl refl refl

group_rows-IsPartition_example :
    Perm (rows_of (group_rows (codes "?d" ∷ []) [] staff)) staff
    × All (IsGroup (codes "?d" ∷ [])) (group_rows (codes "?d" ∷ []) [] staff)
    × IsAscending (group_rows (codes "?d" ∷ []) [] staff)
group_rows-IsPartition_example = group_rows-IsPartition (codes "?d" ∷ []) staff (omega arith)

compute_aggregation-IsAggregation_example :
    IsAggregation bit_arithmetic functions counted
      (group_rows (group_var_names counted []) [] staff)
      (compute_aggregation bit_arithmetic staff counted [] functions)
compute_aggregation-IsAggregation_example =
    compute_aggregation-IsAggregation bit_arithmetic functions (row (codes "a") 30)
      (row (codes "b") 20 ∷ row (codes "a") 10 ∷ []) counted []

extreme_of-best_example :
    (r : Value) × (extreme_of lowest (int 30 ∷ int 10 ∷ []) ≡ ok r)
    × IsIn r (int 30 ∷ int 10 ∷ [])
    × All (λ v. ¬ Beats lowest r v) (int 30 ∷ int 10 ∷ [])
extreme_of-best_example = extreme_of-best lowest (int 30) (int 10 ∷ []) (omega arith) (refl, tt)
