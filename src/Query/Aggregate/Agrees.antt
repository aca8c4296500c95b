-- ===== src/Query/Aggregate/Agrees.antt =====
-- The accumulators of a window end with the batch aggregate (src/query/datalog/functions.rs).
use minigraf.Prelude.{
  ℕ, ◌+◌, ◌≡◌, refl, ap, ◌∙◌, Bool, true, false, ◌||◌, List, [], ◌∷◌, arith, length, All, any,
}
use minigraf.Prelude.Int.{ℤ, pos, i64_of_u64}
use minigraf.Error.{ok_injective, ok, ok-of_bind}
use minigraf.Graph.Value.{Value}
use minigraf.Query.Eval.{FloatArithmetic}
use minigraf.Query.Aggregate.{
  AggState, WindowOps, saturating_add_i64, next_count, count_ops, min_ops, max_ops, avg_ops,
  sum_ops, stub_ops, run_steps, run_window,
}
use minigraf.Query.Aggregate.Batch.{
  Builtin, count, count_distinct, sum, sum_distinct, min_, max_, avg, is_float, sum_floats, lowest,
  highest, avg_of, sum_of, aggregated,
}
use minigraf.Query.Aggregate.Folds.{IsPresent, extreme_ops, run_steps-extreme_of}

-- The functions of a window have an accumulator each; the distinct ones have none.
abbrev pub IsAccumulated : Builtin → Type 0
IsAccumulated count_distinct = ⊥
IsAccumulated sum_distinct = ⊥
IsAccumulated b = Unit {0}

next_i64 : (n : ℕ) → saturating_add_i64 (i64_of_u64 n) (pos 1) ≡ i64_of_u64 (n + 1)
next_i64 n = ground arith

step_count-next :
    (v : Value) (n : ℕ)
    → IsPresent v
    → count_ops.step (AggState.count (i64_of_u64 n)) v ≡ AggState.count (i64_of_u64 (n + 1))
step_count-next Value.null n h = absurd h
step_count-next v n h = ap AggState.count (next_i64 n)

run_steps-count :
    (n : ℕ) (values : List Value)
    → All IsPresent values
    → run_steps count_ops (AggState.count (i64_of_u64 n)) values
      ≡ AggState.count (i64_of_u64 (n + length values))
unfolding run_steps
run_steps-count n [] all = ap (λ k. AggState.count (i64_of_u64 k)) (omega arith)
run_steps-count n (v ∷ values) (here, all) =
    ap (λ s. run_steps count_ops s values) (step_count-next v n here)
    ∙ run_steps-count (n + 1) values all
    ∙ ap (λ k. AggState.count (i64_of_u64 k)) (omega arith)

module _ (f64 : FloatArithmetic) (to_i64 : ℕ → ℤ) where
  abbrev pub ops_of : Builtin → WindowOps
  ops_of count = count_ops
  ops_of count_distinct = stub_ops
  ops_of sum = sum_ops f64 to_i64
  ops_of sum_distinct = stub_ops
  ops_of min_ = min_ops f64
  ops_of max_ = max_ops f64
  ops_of avg = avg_ops f64

  run_steps-sum_floats :
      (total r : ℕ) (flag : Bool) (values : List Value)
      → sum_floats f64 total values ≡ ok r
      → run_steps (sum_ops f64 to_i64) (AggState.sum total flag) values
        ≡ AggState.sum r (flag || any is_float values)
  unfolding run_steps sum_floats
  run_steps-sum_floats total r true [] h = ap (λ t. AggState.sum t true) (ok_injective h)
  run_steps-sum_floats total r false [] h = ap (λ t. AggState.sum t false) (ok_injective h)
  run_steps-sum_floats total r flag (Value.integer i ∷ values) h =
      run_steps-sum_floats (f64.add total (f64.of_i64 i)) r flag values h
  run_steps-sum_floats total r true (Value.float f ∷ values) h =
      run_steps-sum_floats (f64.add total f) r true values h
  run_steps-sum_floats total r false (Value.float f ∷ values) h =
      run_steps-sum_floats (f64.add total f) r true values h
  run_steps-sum_floats total r flag (Value.null ∷ values) h = cc
  run_steps-sum_floats total r flag (other ∷ values) h = cc

  run_steps-avg :
      (total n : ℕ) (values : List Value)
      → (avg_ops f64).finalise (run_steps (avg_ops f64) (AggState.avg total n) values)
        ≡ avg_of f64 total n values
  unfolding run_steps avg_of
  run_steps-avg total n [] = refl
  run_steps-avg total n (Value.integer i ∷ values) =
      run_steps-avg (f64.add total (f64.of_i64 i)) (next_count n) values
  run_steps-avg total n (Value.float f ∷ values) =
      run_steps-avg (f64.add total f) (next_count n) values
  run_steps-avg total n (Value.null ∷ values) = run_steps-avg total n values
  run_steps-avg total n (other ∷ values) = run_steps-avg total n values

  run_window-sum :
      (values : List Value) (r : Value)
      → any is_float values ≡ true
      → sum_of f64 values ≡ ok r
      → run_window (sum_ops f64 to_i64) values ≡ r
  run_window-sum [] r some_float h = cc
  run_window-sum (v ∷ values) r some_float h =
      let (total, summed, answer) =
        ok-of_bind (sum_floats f64 0 (v ∷ values)) (λ t. ok (Value.float t)) (rw some_float at h) in
      ap (sum_ops f64 to_i64).finalise (
        run_steps-sum_floats 0 total false (v ∷ values) summed ∙ ap (AggState.sum total) some_float)
      ∙ ok_injective answer

  pub aggregated-run_window :
      (b : Builtin) (values : List Value) (r : Value)
      → IsAccumulated b
      → All IsPresent values
      → (b ≡ sum → any is_float values ≡ true)
      → aggregated f64 b values ≡ ok r
      → run_window (ops_of b) values ≡ r
  unfolding aggregated extreme_ops
  aggregated-run_window count values r is_b all floats h =
      ap (count_ops.finalise) (run_steps-count 0 values all)
      ∙ ap (λ n. Value.integer (i64_of_u64 n)) (omega arith)
      ∙ ok_injective h
  aggregated-run_window count_distinct values r is_b all floats h = absurd is_b
  aggregated-run_window sum values r is_b all floats h = run_window-sum values r (floats refl) h
  aggregated-run_window sum_distinct values r is_b all floats h = absurd is_b
  aggregated-run_window min_ values r is_b all floats h =
      ap (min_ops f64).finalise (run_steps-extreme_of f64 lowest r values all h)
  aggregated-run_window max_ values r is_b all floats h =
      ap (max_ops f64).finalise (run_steps-extreme_of f64 highest r values all h)
  aggregated-run_window avg [] r is_b all floats h =
      run_steps-avg 0 0 [] ∙ unfold avg_of in ok_injective h
  aggregated-run_window avg (v ∷ values) r is_b all floats h =
      run_steps-avg 0 0 (v ∷ values) ∙ ok_injective h
