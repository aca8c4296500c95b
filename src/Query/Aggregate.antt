-- ===== src/Query/Aggregate.antt =====
-- The order and the window accumulators of src/query/datalog/functions.rs. The arithmetic of `f64`
-- is an argument.
pub mod Batch
pub mod Order
pub mod Folds
pub mod Agrees
pub mod Extremes
pub mod Registry
use minigraf.Prelude.{
  ℕ, zero, suc, ◌+◌, ◌-◌, ◌*◌, ◌/◌, ◌%◌, ◌^◌, ◌≤◌, ◌<◌, min, max, compare, Ordering, bit_xor,
  String, ◌≡◌, refl, sym, ap, ap₂, ◌∙◌, ◌≡⟨◌⟩◌, ◌∎, ◌≢◌, ◌↔◌, ◌⊎◌, inl, inr, Bool, true, false, not,
  ◌&&◌, ◌||◌, Option, none, some, List, [], ◌∷◌, ◌++◌, map, append-nil, append_assoc, arith, ltb,
  leb, ◌==◌, if◌then◌else◌, ltb→lt, lt→ltb, ltb-false, ==_iff, ==_refl, Bool-cases, Option-cases,
  length, get_elem?, set, take, drop, replicate, All, keep, any, length-append, length-take,
  length-drop, length-replicate, take-append, drop-append, take-append-drop, length-set, All-append,
}
use minigraf.Prelude.Int.{ℤ, pos, negsuc, pos_part, neg_part, compare_ℤ, i64_of_u64}
use minigraf.Prelude.Order.{compare_bytes}
use minigraf.Graph.Float.{partial_cmp}
use minigraf.Graph.Value.{Value, or_equal}
use minigraf.Query.Eval.{FloatArithmetic}

-- `AggState`
pub data AggState : Type 0 where
  sum : ℕ → Bool → AggState
  count : ℤ → AggState
  min_max : Option Value → AggState
  avg : ℕ → ℕ → AggState

-- `WindowOps`
pub record WindowOps : Type 0 where
  pub init : AggState
  pub step : AggState → Value → AggState
  pub finalise : AggState → Value

abbrev pub is_less : Option Ordering → Bool
is_less (some Ordering.lt) = true
is_less o = false

abbrev pub is_greater : Option Ordering → Bool
is_greater (some Ordering.gt) = true
is_greater o = false

-- `i64::saturating_add`
abbrev pub saturating_add_i64 : ℤ → ℤ → ℤ
saturating_add_i64 a b =
    let up = pos_part a + pos_part b in
    let down = neg_part a + neg_part b in
    if leb down up
    then pos (min (up - down) (2 ^ 63 - 1))
    else negsuc (min (down - up - 1) (2 ^ 63 - 1))

-- `usize::saturating_add(1)`
abbrev pub next_count : ℕ → ℕ
next_count n = min (n + 1) (2 ^ 64 - 1)

abbrev pub value_or_null : Option Value → Value
value_or_null none = Value.null
value_or_null (some v) = v

-- The accumulator of `count`.
abbrev pub step_count : AggState → Value → AggState
step_count state Value.null = state
step_count (AggState.count n) v = AggState.count (saturating_add_i64 n (pos 1))
step_count state v = state

abbrev pub finalise_count : AggState → Value
finalise_count (AggState.count n) = Value.integer n
finalise_count state = Value.null

abbrev pub count_ops : WindowOps
count_ops = record { init = AggState.count (pos 0); step = step_count; finalise = finalise_count }

-- The accumulators of the distinct functions, which are never called.
abbrev pub stub_ops : WindowOps
stub_ops = record {
  init = AggState.count (pos 0);
  step = λ state v. state;
  finalise = λ state. Value.null;
}

module _ (f64 : FloatArithmetic) where
  unfoldable pub value_lt : Value → Value → Bool
  value_lt (Value.integer x) (Value.integer y) = is_less (some (compare_ℤ x y))
  value_lt (Value.float x) (Value.float y) = is_less (partial_cmp x y)
  value_lt (Value.integer x) (Value.float y) = is_less (partial_cmp (f64.of_i64 x) y)
  value_lt (Value.float x) (Value.integer y) = is_less (partial_cmp x (f64.of_i64 y))
  value_lt (Value.string x) (Value.string y) = is_less (some (compare_bytes x y))
  value_lt a b = false

  unfoldable pub value_cmp : Value → Value → Ordering
  value_cmp (Value.integer x) (Value.integer y) = compare_ℤ x y
  value_cmp (Value.float x) (Value.float y) = or_equal (partial_cmp x y)
  value_cmp (Value.integer x) (Value.float y) = or_equal (partial_cmp (f64.of_i64 x) y)
  value_cmp (Value.float x) (Value.integer y) = or_equal (partial_cmp x (f64.of_i64 y))
  value_cmp (Value.string x) (Value.string y) = compare_bytes x y
  value_cmp a b = Ordering.eq

  -- The accumulators of `min` and `max`.
  abbrev pub least_value : Value → Option Value → Option Value
  least_value v none = some v
  least_value v (some cur) = if value_lt v cur then some v else some cur

  abbrev pub greatest_value : Value → Option Value → Option Value
  greatest_value v none = some v
  greatest_value v (some cur) = if value_lt cur v then some v else some cur

  abbrev pub step_min : AggState → Value → AggState
  step_min state Value.null = state
  step_min (AggState.min_max current) v = AggState.min_max (least_value v current)
  step_min state v = state

  abbrev pub step_max : AggState → Value → AggState
  step_max state Value.null = state
  step_max (AggState.min_max current) v = AggState.min_max (greatest_value v current)
  step_max state v = state

  abbrev pub finalise_min_max : AggState → Value
  finalise_min_max (AggState.min_max current) = value_or_null current
  finalise_min_max state = Value.null

  abbrev pub min_ops : WindowOps
  min_ops = record { init = AggState.min_max none; step = step_min; finalise = finalise_min_max }

  abbrev pub max_ops : WindowOps
  max_ops = record { init = AggState.min_max none; step = step_max; finalise = finalise_min_max }

  -- The accumulator of `avg`.
  abbrev pub step_avg : AggState → Value → AggState
  step_avg (AggState.avg total n) (Value.integer i) =
      AggState.avg (f64.add total (f64.of_i64 i)) (next_count n)
  step_avg (AggState.avg total n) (Value.float f) = AggState.avg (f64.add total f) (next_count n)
  step_avg state v = state

  -- The mean, or null where nothing was counted.
  abbrev pub mean : ℕ → ℕ → Value
  mean total n = if n == 0 then Value.null else Value.float (f64.div total (f64.of_i64 (pos n)))

  abbrev pub finalise_avg : AggState → Value
  finalise_avg (AggState.avg total n) = mean total n
  finalise_avg state = Value.null

  abbrev pub avg_ops : WindowOps
  avg_ops = record { init = AggState.avg 0 0; step = step_avg; finalise = finalise_avg }

  -- The accumulator of `sum`.
  abbrev pub step_sum : AggState → Value → AggState
  step_sum (AggState.sum total is_float) (Value.integer i) =
      AggState.sum (f64.add total (f64.of_i64 i)) is_float
  step_sum (AggState.sum total is_float) (Value.float f) = AggState.sum (f64.add total f) true
  step_sum state v = state

  -- `total as i64` is the conversion that is given.
  abbrev pub finalise_sum : (ℕ → ℤ) → AggState → Value
  finalise_sum to_i64 (AggState.sum total true) = Value.float total
  finalise_sum to_i64 (AggState.sum total false) = Value.integer (to_i64 total)
  finalise_sum to_i64 state = Value.null

  abbrev pub sum_ops : (ℕ → ℤ) → WindowOps
  sum_ops to_i64 = record {
    init = AggState.sum 0 false;
    step = step_sum;
    finalise = finalise_sum to_i64;
  }

-- The values of a window, one after the other.
unfoldable pub run_steps : WindowOps → AggState → List Value → AggState
run_steps ops state [] = state
run_steps ops state (v ∷ values) = run_steps ops (ops.step state v) values

-- The value of the last row of a window.
abbrev pub run_window : WindowOps → List Value → Value
run_window ops values = ops.finalise (run_steps ops ops.init values)
