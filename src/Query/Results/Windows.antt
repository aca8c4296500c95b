-- ===== src/Query/Results/Windows.antt =====
-- `apply_window_functions` of src/query/datalog/executor.rs.
use minigraf.Prelude.{
  ℕ, zero, suc, ◌+◌, ◌-◌, ◌^◌, Ordering, Bool, true, false, Option, none, some, List, [], ◌∷◌, ◌++◌,
  map, ltb, if◌then◌else◌,
}
use minigraf.Error.{coded, Result, ok, err, ◌>>=◌}
use minigraf.Error.{int030, int032}
use minigraf.Prelude.Int.{pos}
use minigraf.Prelude.Order.{flip}
use minigraf.Prelude.Text.{Text}
use mathlib.Core.Option
use minigraf.Query.Results.SortBy.{sort_by}
use minigraf.Prelude.Map.{lookup, insert, bytes_key}
use minigraf.Graph.Value.{Value}
use minigraf.Graph.Value.Equal.{value_eq}
use minigraf.Query.Eval.{FloatArithmetic}
use minigraf.Query.Matcher.{Bindings}
use minigraf.Query.Aggregate.{AggState, WindowOps, value_or_null, value_cmp}
use minigraf.Query.Aggregate.Registry.{UdfOps, AggImpl, AggregateDesc, Aggregates, get}
use minigraf.Query.Results.Specs.{WindowFunc, WindowSpec, Order, FindSpec, func_name, win_key}

-- `opt.and_then(|v| binding.get(v))`
abbrev pub lookup_some : Option Text → Bindings → Option Value
lookup_some none binding = none
lookup_some (some v) binding = lookup v binding

abbrev pub option_eq : Option Value → Option Value → Bool
option_eq none none = true
option_eq none (some w) = false
option_eq (some v) none = false
option_eq (some v) (some w) = value_eq v w

-- `bindings[i]`, for the index of a row.
unfoldable pub row_at : ℕ → List Bindings → Bindings
row_at i [] = []
row_at zero (b ∷ bindings) = b
row_at (suc i) (b ∷ bindings) = row_at i bindings

-- The partitions: a key and the indices of its rows.
abbrev pub Partitions : Type 0
Partitions = List (Option Value × List ℕ)

-- `partitions.entry(key).or_default().push(row)`
unfoldable pub add_index : Option Value → ℕ → Partitions → Partitions
add_index key row [] = (key, row ∷ []) ∷ []
add_index key row ((k, rows) ∷ partitions) =
    let rest = add_index key row partitions in
    if option_eq k key then (k, rows ++ (row ∷ [])) ∷ partitions else (k, rows) ∷ rest

-- The rows from the given index on.
unfoldable pub partition_rows : WindowSpec → ℕ → Partitions → List Bindings → Partitions
partition_rows ws row partitions [] = partitions
partition_rows ws row partitions (b ∷ bindings) =
    partition_rows ws (suc row) (add_index (lookup_some ws.partition_by b) row partitions) bindings

-- `Value::Integer(i64::try_from(pos)?)` for each row.
unfoldable pub row_numbers : ℕ → List (Value × ℕ) → Result (List Value)
row_numbers n [] = ok []
row_numbers n (x ∷ keyed) =
    let rest = row_numbers (suc n) keyed in
    if ltb (2 ^ 63 - 1) n
    then err (coded int032)
    else (rest >>= λ values. ok (Value.integer (pos n) ∷ values))

-- The ranks from the row with the given number on.
unfoldable pub ranks : ℕ → ℕ → Option Value → List (Value × ℕ) → List Value
ranks rank n prev [] = []
ranks rank n prev ((key, i) ∷ keyed) =
    let tied = option_eq prev (some key) in
    let r = if tied then rank else n in
    Value.integer (pos r) ∷ ranks r (suc n) (if tied then prev else some key) keyed

-- The value of each row of a partition, in its order.
unfoldable pub running : WindowOps → AggState → List Value → List Value
running ops state [] = []
running ops state (v ∷ values) =
    let next = ops.step state v in ops.finalise next ∷ running ops next values

-- `bindings[row_idx].insert(key, value)`
unfoldable pub set_value : Text → ℕ → Value → List Bindings → List Bindings
set_value key i v [] = []
set_value key zero v (b ∷ bindings) = insert key v b ∷ bindings
set_value key (suc i) v (b ∷ bindings) = b ∷ set_value key i v bindings

unfoldable pub write_values : Text → List (Value × ℕ) → List Value → List Bindings → List Bindings
write_values key [] values bindings = bindings
write_values key (x ∷ keyed) [] bindings = bindings
write_values key (x ∷ keyed) (v ∷ values) bindings =
    write_values key keyed values (set_value key x.1 v bindings)

-- The sort keys of the rows.
abbrev pub keyed_rows : WindowSpec → List ℕ → List Bindings → List (Value × ℕ)
keyed_rows ws rows bindings =
    map (λ i. (value_or_null (lookup ws.order_by (row_at i bindings)), i)) rows

-- The values that a window function takes.
abbrev pub window_args : WindowSpec → List (Value × ℕ) → List Bindings → List Value
window_args ws keyed bindings =
    map (λ x. value_or_null (lookup_some ws.var (row_at x.1 bindings))) keyed

abbrev pub in_order : Order → Ordering → Ordering
in_order Order.asc o = o
in_order Order.desc o = flip o

-- The sort keys of the rows of a partition, in order.
abbrev pub sorted_rows :
    FloatArithmetic → WindowSpec → List ℕ → List Bindings → Option (List (Value × ℕ))
sorted_rows f64 ws rows bindings =
    sort_by (λ a b. in_order ws.order (value_cmp f64 a b)) (keyed_rows ws rows bindings)

-- The next step of a call that answers; `none` is a call whose answer is not specified.
abbrev pub then_run :
    {A B : Type 0} → Option (Result A) → (A → Option (Result B)) → Option (Result B)
then_run none next = none
then_run (some (err f)) next = some (err f)
then_run (some (ok a)) next = next a

module _ {Any : Type 0} (f64 : FloatArithmetic) where
  unfoldable pub running_udf : UdfOps Any → Any → ℕ → List Value → List Value
  running_udf ops acc n [] = []
  running_udf ops acc n (v ∷ values) =
      let next = ops.step acc v in ops.finalise next (n + 1) ∷ running_udf ops next (n + 1) values

  abbrev pub run_over_rows : AggImpl Any → List Value → List Value
  run_over_rows (AggImpl.builtin ops) values = running ops ops.init values
  run_over_rows (AggImpl.udf ops) values = running_udf ops ops.init 0 values

  abbrev pub run_found : Option (AggregateDesc Any) → List Value → Result (List Value)
  run_found none values = err (coded int030)
  run_found (some desc) values = ok (run_over_rows desc.impl_ values)

  abbrev pub window_values :
      Aggregates Any → WindowFunc → List (Value × ℕ) → List Value → Result (List Value)
  window_values registry WindowFunc.row_number keyed values = row_numbers 1 keyed
  window_values registry WindowFunc.rank keyed values = ok (ranks 1 1 none keyed)
  window_values registry func keyed values = run_found (get registry (func_name func)) values

  -- A partition in its order: the values of the window function, written to the rows.
  abbrev pub window_rows :
      Aggregates Any → Text → WindowSpec → List Bindings → List (Value × ℕ) → Result (List Bindings)
  window_rows registry key ws bindings keyed =
      window_values registry ws.func keyed (window_args ws keyed bindings) >>= λ values.
      ok (write_values key keyed values bindings)

  -- The body of the loop over the partitions.
  abbrev pub window_partition :
      Aggregates Any → Text → WindowSpec → List ℕ → List Bindings → Option (Result (List Bindings))
  window_partition registry key ws rows bindings =
      Option.map (window_rows registry key ws bindings) (sorted_rows f64 ws rows bindings)

  unfoldable pub window_partitions :
      Aggregates Any
      → Text
      → WindowSpec
      → Partitions
      → List Bindings
      → Option (Result (List Bindings))
  window_partitions registry key ws [] bindings = some (ok bindings)
  window_partitions registry key ws ((k, rows) ∷ partitions) bindings =
      then_run (window_partition registry key ws rows bindings)
        (window_partitions registry key ws partitions)

  -- `apply_window_functions`, from the i-th find spec on.
  unfoldable pub apply_window_functions :
      Aggregates Any → ℕ → List FindSpec → List Bindings → Option (Result (List Bindings))
  apply_window_functions registry i [] bindings = some (ok bindings)
  apply_window_functions registry i (FindSpec.window ws ∷ specs) bindings =
      then_run
        (window_partitions registry (win_key i) ws (partition_rows ws 0 [] bindings) bindings)
        (apply_window_functions registry (suc i) specs)
  apply_window_functions registry i (spec ∷ specs) bindings =
      apply_window_functions registry (suc i) specs bindings
