-- ===== src/Query/Results/Running.antt =====
-- A window function beside the aggregate of the same name (src/query/datalog/executor.rs and
-- src/query/datalog/functions.rs).
use minigraf.Prelude.{
  ℕ, zero, suc, ◌≡◌, refl, sym, ap, ◌∙◌, true, some, List, [], ◌∷◌, get_elem?, take, All, any,
}
use minigraf.Error.{ok}
use minigraf.Error.{ok_injective}
use minigraf.Prelude.Int.{ℤ}
use minigraf.Prelude.Options.{some_injective}
use minigraf.Graph.Value.{Value}
use minigraf.Query.Eval.{FloatArithmetic}
use minigraf.Query.Aggregate.{AggState, WindowOps, run_steps}
use minigraf.Query.Aggregate.Batch.{
  Builtin, count, count_distinct, sum, sum_distinct, min_, max_, avg, builtin_of, is_float,
  aggregated, apply_builtin_aggregate,
}
use minigraf.Query.Aggregate.Folds.{IsPresent}
use minigraf.Query.Aggregate.Agrees.{IsAccumulated, ops_of, aggregated-run_window}
use minigraf.Query.Aggregate.Registry.{with_builtins}
use minigraf.Query.Results.Specs.{WindowFunc, func_name}
use minigraf.Query.Results.Windows.{running, window_values}

-- The values that are not null.
unfoldable pub not_null : List Value → List Value
not_null [] = []
not_null (Value.null ∷ values) = not_null values
not_null (v ∷ values) = v ∷ not_null values

not_null-IsPresent : (values : List Value) → All IsPresent (not_null values)
unfolding not_null
not_null-IsPresent [] = tt
not_null-IsPresent (Value.null ∷ values) = not_null-IsPresent values
not_null-IsPresent (v ∷ values) = (tt, not_null-IsPresent values)

-- A window function with an accumulator of the library.
abbrev pub IsBuiltin : WindowFunc → Type 0
IsBuiltin WindowFunc.rank = ⊥
IsBuiltin WindowFunc.row_number = ⊥
IsBuiltin (WindowFunc.udf name) = ⊥
IsBuiltin func = Unit {0}

-- The function leaves a null out.
abbrev IgnoresNull : WindowOps → Type 0
IgnoresNull ops = (state : AggState) → ops.step state Value.null ≡ state

run_steps-not_null :
    (ops : WindowOps) (state : AggState) (values : List Value)
    → IgnoresNull ops
    → run_steps ops state values ≡ run_steps ops state (not_null values)
unfolding run_steps not_null
run_steps-not_null ops state [] ignores = refl
run_steps-not_null ops state (Value.null ∷ values) ignores =
    ap (λ s. run_steps ops s values) (ignores state) ∙ run_steps-not_null ops state values ignores
run_steps-not_null ops state (v ∷ values) ignores =
    run_steps-not_null ops (ops.step state v) values ignores

-- The value of a row is the one of the rows up to it.
get-running :
    (ops : WindowOps) (state : AggState) (values : List Value) (k : ℕ) (w : Value)
    → get_elem? (running ops state values) k ≡ some w
    → ops.finalise (run_steps ops state (take (suc k) values)) ≡ w
unfolding running run_steps
get-running ops state [] k w h = cc
get-running ops state (v ∷ values) zero w h = some_injective h
get-running ops state (v ∷ values) (suc k) w h = get-running ops (ops.step state v) values k w h

module _ (f64 : FloatArithmetic) (to_i64 : ℕ → ℤ) where
  ops_of-IgnoresNull : (b : Builtin) → IsAccumulated b → IgnoresNull (ops_of f64 to_i64 b)
  ops_of-IgnoresNull count is_b state = refl
  ops_of-IgnoresNull count_distinct is_b state = refl
  ops_of-IgnoresNull sum is_b (AggState.sum total flag) = refl
  ops_of-IgnoresNull sum is_b state = refl
  ops_of-IgnoresNull sum_distinct is_b state = refl
  ops_of-IgnoresNull min_ is_b state = refl
  ops_of-IgnoresNull max_ is_b state = refl
  ops_of-IgnoresNull avg is_b (AggState.avg total n) = refl
  ops_of-IgnoresNull avg is_b state = refl

  running-aggregated :
      (b : Builtin) (values : List Value) (k : ℕ) (w r : Value)
      → IsAccumulated b
      → (b ≡ sum → any is_float (not_null (take (suc k) values)) ≡ true)
      → get_elem? (running (ops_of f64 to_i64 b) (ops_of f64 to_i64 b).init values) k ≡ some w
      → aggregated f64 b (not_null (take (suc k) values)) ≡ ok r
      → w ≡ r
  running-aggregated b values k w r is_b floats got answered =
      let ops = ops_of f64 to_i64 b in
      let prefix = take (suc k) values in
      sym (get-running ops ops.init values k w got)
      ∙ ap ops.finalise (run_steps-not_null ops ops.init prefix (ops_of-IgnoresNull b is_b))
      ∙ aggregated-run_window f64 to_i64 b (not_null prefix) r is_b (not_null-IsPresent prefix)
          floats answered

  -- A window function with a built-in accumulator gives each row what the aggregate of the same name
  -- answers for the values, null left out, of the rows up to it in the order of the partition; for
  -- sum one of these values is a float, since the accumulator adds integers as floats.
  pub window_values-apply_builtin_aggregate :
      (Any : Type 0) (func : WindowFunc) (keyed : List (Value × ℕ)) (args values : List Value)
      (k : ℕ) (w r : Value)
      → IsBuiltin func
      → (func ≡ WindowFunc.sum → any is_float (not_null (take (suc k) args)) ≡ true)
      → window_values {Any = Any} f64 (with_builtins f64 to_i64) func keyed args ≡ ok values
      → get_elem? values k ≡ some w
      → apply_builtin_aggregate f64 (func_name func) (not_null (take (suc k) args)) ≡ ok r
      → w ≡ r
  unfolding apply_builtin_aggregate builtin_of
  window_values-apply_builtin_aggregate Any WindowFunc.sum keyed args values k w r is_b floats ran
        got batch =
      running-aggregated sum args k w r tt (λ e. floats refl)
        (ap (λ l. get_elem? l k) (ok_injective ran) ∙ got) batch
  window_values-apply_builtin_aggregate Any WindowFunc.count keyed args values k w r is_b floats ran
        got batch =
      running-aggregated count args k w r tt (λ e. other e)
        (ap (λ l. get_elem? l k) (ok_injective ran) ∙ got) batch
    where
      other : count ≡ sum → any is_float (not_null (take (suc k) args)) ≡ true
      other e = cc
  window_values-apply_builtin_aggregate Any WindowFunc.min_ keyed args values k w r is_b floats ran
        got batch =
      running-aggregated min_ args k w r tt (λ e. cc)
        (ap (λ l. get_elem? l k) (ok_injective ran) ∙ got) batch
  window_values-apply_builtin_aggregate Any WindowFunc.max_ keyed args values k w r is_b floats ran
        got batch =
      running-aggregated max_ args k w r tt (λ e. cc)
        (ap (λ l. get_elem? l k) (ok_injective ran) ∙ got) batch
  window_values-apply_builtin_aggregate Any WindowFunc.avg keyed args values k w r is_b floats ran
        got batch =
      running-aggregated avg args k w r tt (λ e. cc)
        (ap (λ l. get_elem? l k) (ok_injective ran) ∙ got) batch
  window_values-apply_builtin_aggregate Any WindowFunc.rank keyed args values k w r is_b floats ran
        got batch =
      absurd is_b
  window_values-apply_builtin_aggregate Any WindowFunc.row_number keyed args values k w r is_b
        floats ran got batch =
      absurd is_b
  window_values-apply_builtin_aggregate Any (WindowFunc.udf name) keyed args values k w r is_b
        floats ran got batch =
      absurd is_b
