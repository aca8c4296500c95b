-- ===== src/Query/Results/Aggregation.antt =====
-- `compute_aggregation` of src/query/datalog/executor.rs. `Box<dyn Any>`, the accumulator of a
-- user-defined function, is the type `Any`.
use minigraf.Prelude.{
  ℕ, suc, ◌+◌, Bool, true, false, not, ◌&&◌, ◌||◌, Option, none, some, List, [], ◌∷◌, if◌then◌else◌,
  length, get_elem?, any,
}
use minigraf.Error.{Failure, coded, Result, ok, err, ◌>>=◌}
use minigraf.Error.{int029, int042}
use minigraf.Prelude.Int.{pos}
use minigraf.Prelude.Text.{Text, codes, bytes_eq}
use minigraf.Prelude.Map.{Map, lookup, insert, bytes_key}
use minigraf.Graph.Value.{Value}
use minigraf.Query.Eval.{FloatArithmetic}
use minigraf.Query.Matcher.{Bindings}
use minigraf.Query.Aggregate.Batch.{apply_builtin_aggregate}
use minigraf.Query.Aggregate.Registry.{UdfOps, AggImpl, AggregateDesc, Aggregates, get}
use minigraf.Query.Results.Specs.{FindSpec, agg_key}
use minigraf.Query.Results.Groups.{RowGroups, group_rows, group_var_names}

abbrev pub present_value : Option Value → List Value → List Value
present_value none values = values
present_value (some Value.null) values = values
present_value (some v) values = v ∷ values

-- The values of a variable that are bound and not null.
unfoldable pub present : Text → List Bindings → List Value
present var [] = []
present var (b ∷ rows) = present_value (lookup var b) (present var rows)

-- The positions of the plain variables in the key of a group.
unfoldable pub key_positions : ℕ → List FindSpec → Map Text ℕ → Map Text ℕ
key_positions n [] positions = positions
key_positions n (FindSpec.variable v ∷ specs) positions =
    key_positions (n + 1) specs (insert v n positions)
key_positions n (spec ∷ specs) positions = key_positions n specs positions

abbrev pub insert_some : Text → Option Value → Bindings → Bindings
insert_some v none binding = binding
insert_some v (some value) binding = insert v value binding

unfoldable pub insert_keys : List Value → Map Text ℕ → Bindings → Bindings
insert_keys key [] binding = binding
insert_keys key ((v, n) ∷ positions) binding =
    insert_keys key positions (insert_some v (get_elem? key n) binding)

-- The error whose text says "no non-null values in group".
abbrev pub is_empty_group : Failure → Bool
is_empty_group (coded int042) = true
is_empty_group e = false

-- A group without a value for `min` or `max` is skipped.
abbrev pub stored_or_skipped :
    Result Value → (Value → Result (Option Bindings)) → Result (Option Bindings)
stored_or_skipped (ok v) next = next v
stored_or_skipped (err e) next = if is_empty_group e then ok none else err e

abbrev pub is_variable_spec : FindSpec → Bool
is_variable_spec (FindSpec.variable v) = true
is_variable_spec spec = false

abbrev pub is_count : FindSpec → Bool
is_count (FindSpec.aggregate func var) =
    bytes_eq func (codes "count") || bytes_eq func (codes "count-distinct")
is_count spec = false

unfoldable pub every {ℓ} : {A : Type ℓ} → (A → Bool) → List A → Bool
every p [] = true
every p (x ∷ xs) = p x && every p xs

unfoldable pub zero_row : ℕ → List FindSpec → Bindings → Bindings
zero_row i [] binding = binding
zero_row i (spec ∷ specs) binding =
    zero_row (suc i) specs (insert (agg_key i) (Value.integer (pos 0)) binding)

abbrev pub and_row : Option Bindings → List Bindings → List Bindings
and_row none rows = rows
and_row (some row) rows = row ∷ rows

module _ {Any : Type 0} (f64 : FloatArithmetic) where
  unfoldable pub udf_steps : UdfOps Any → Any → List Value → Any
  udf_steps ops acc [] = acc
  udf_steps ops acc (v ∷ values) = udf_steps ops (ops.step acc v) values

  abbrev pub run_udf : UdfOps Any → List Value → Value
  run_udf ops [] = Value.null
  run_udf ops values = ops.finalise (udf_steps ops ops.init values) (length values)

  abbrev pub run_impl : AggImpl Any → Text → List Value → Result Value
  run_impl (AggImpl.udf ops) func values = ok (run_udf ops values)
  run_impl (AggImpl.builtin ops) func values = apply_builtin_aggregate f64 func values

  abbrev pub run_desc : Option (AggregateDesc Any) → Text → List Value → Result Value
  run_desc none func values = err (coded int029)
  run_desc (some desc) func values =
      if desc.is_builtin
      then apply_builtin_aggregate f64 func values
      else run_impl desc.impl_ func values

  -- The aggregates of a group, from the i-th find spec on.
  unfoldable pub aggregate_row :
      Aggregates Any → List Bindings → ℕ → List FindSpec → Bindings → Result (Option Bindings)
  aggregate_row registry rows i [] binding = ok (some binding)
  aggregate_row registry rows i (FindSpec.aggregate func var ∷ specs) binding =
      stored_or_skipped (run_desc (get registry func) func (present var rows))
        λ v. aggregate_row registry rows (suc i) specs (insert (agg_key i) v binding)
  aggregate_row registry rows i (spec ∷ specs) binding =
      aggregate_row registry rows (suc i) specs binding

  unfoldable pub aggregate_groups :
      Aggregates Any → List FindSpec → RowGroups → Result (List Bindings)
  aggregate_groups registry specs [] = ok []
  aggregate_groups registry specs ((key, rows) ∷ groups) = do
    row ← aggregate_row registry rows 0 specs (insert_keys key (key_positions 0 specs []) [])
    rest ← aggregate_groups registry specs groups
    ok (and_row row rest)

  -- `compute_aggregation`
  unfoldable pub compute_aggregation :
      List Bindings → List FindSpec → List Text → Aggregates Any → Result (List Bindings)
  compute_aggregation [] specs with_vars registry = ok (
      if not (any is_variable_spec specs) && every is_count specs
      then zero_row 0 specs [] ∷ []
      else [])
  compute_aggregation bindings specs with_vars registry =
      aggregate_groups registry specs (group_rows (group_var_names specs with_vars) [] bindings)
