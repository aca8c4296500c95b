-- ===== src/Query/Aggregate/Batch.antt =====
-- `apply_builtin_aggregate` of src/query/datalog/functions.rs.
use minigraf.Prelude.{
  ℕ, Ordering, Bool, true, false, ◌&&◌, Option, none, some, List, [], ◌∷◌, ◌==◌, if◌then◌else◌,
  length, set, any,
}
use minigraf.Error.{coded, Result, ok, err, ◌>>=◌}
use minigraf.Error.{int029, int041, int042, int043, int044}
use minigraf.Prelude.Int.{ℤ, pos, compare_ℤ, i64_of_u64}
use minigraf.Prelude.Order.{compare_bytes}
use minigraf.Prelude.Text.{Text, codes, bytes_eq}
use minigraf.Graph.Float.{partial_cmp}
use minigraf.Graph.Value.{Value, variant, cmp, or_equal}
use minigraf.Query.Eval.{FloatArithmetic}
use minigraf.Query.Aggregate.{saturating_add_i64, next_count, mean}

-- The names that `apply_builtin_aggregate` tells apart.
pub data Builtin : Type 0 where
  count count_distinct sum sum_distinct min_ max_ avg : Builtin

unfoldable pub builtin_of : Text → Option Builtin
builtin_of name =
    if bytes_eq name (codes "count")
    then some count
    else if bytes_eq name (codes "count-distinct")
    then some count_distinct
    else if bytes_eq name (codes "sum")
    then some sum
    else if bytes_eq name (codes "sum-distinct")
    then some sum_distinct
    else if bytes_eq name (codes "min")
    then some min_
    else if bytes_eq name (codes "max")
    then some max_
    else if bytes_eq name (codes "avg")
    then some avg
    else none

-- The insertion into a `BTreeSet` of values, by `Value::cmp`.
abbrev put_at : Value → Value → List Value → List Value → Ordering → List Value
put_at v w set later Ordering.lt = v ∷ w ∷ set
put_at v w set later Ordering.eq = w ∷ set
put_at v w set later Ordering.gt = w ∷ later

unfoldable pub put : Value → List Value → List Value
put v [] = v ∷ []
put v (w ∷ set) = put_at v w set (put v set) (cmp v w)

unfoldable pub distinct : List Value → List Value → List Value
distinct set [] = set
distinct set (v ∷ values) = distinct (put v set) values

abbrev pub is_float : Value → Bool
is_float (Value.float f) = true
is_float v = false

abbrev pub length_of : List Value → Value
length_of values = Value.integer (i64_of_u64 (length values))

unfoldable pub sum_integers : ℤ → List Value → Result ℤ
sum_integers total [] = ok total
sum_integers total (Value.integer i ∷ values) = sum_integers (saturating_add_i64 total i) values
sum_integers total (other ∷ values) = err (coded int041)

-- `min` or `max`.
pub data Extreme : Type 0 where
  lowest highest : Extreme

-- The comparison of the fold; `none` is the error INT-044.
unfoldable pub ordering : Value → Value → Option Ordering
ordering (Value.integer a) (Value.integer b) = some (compare_ℤ a b)
ordering (Value.float a) (Value.float b) = some (or_equal (partial_cmp a b))
ordering (Value.string a) (Value.string b) = some (compare_bytes a b)
ordering a b = none

abbrev pub replaces : Extreme → Ordering → Bool
replaces lowest Ordering.gt = true
replaces highest Ordering.lt = true
replaces extreme o = false

abbrev pub chosen : Extreme → Value → Value → Option Ordering → Result Value
chosen extreme acc v none = err (coded int044)
chosen extreme acc v (some o) = ok (if replaces extreme o then v else acc)

unfoldable pub fold_extreme : Extreme → Value → List Value → Result Value
fold_extreme extreme acc [] = ok acc
fold_extreme extreme acc (v ∷ values) =
    chosen extreme acc v (ordering acc v) >>= λ next. fold_extreme extreme next values

-- All values have the variant of the first.
unfoldable pub has_variant : Value → List Value → Bool
has_variant first [] = true
has_variant first (v ∷ values) = variant v == variant first && has_variant first values

unfoldable pub extreme_of : Extreme → List Value → Result Value
extreme_of extreme [] = err (coded int042)
extreme_of extreme (first ∷ values) =
    if has_variant first values
    then fold_extreme extreme first (first ∷ values)
    else err (coded int043)

module _ (f64 : FloatArithmetic) where
  unfoldable pub sum_floats : ℕ → List Value → Result ℕ
  sum_floats total [] = ok total
  sum_floats total (Value.float f ∷ values) = sum_floats (f64.add total f) values
  sum_floats total (Value.integer i ∷ values) = sum_floats (f64.add total (f64.of_i64 i)) values
  sum_floats total (other ∷ values) = err (coded int041)

  abbrev pub sum_of : List Value → Result Value
  sum_of [] = ok (Value.integer (pos 0))
  sum_of values =
      if any is_float values
      then (sum_floats 0 values >>= λ total. ok (Value.float total))
      else (sum_integers (pos 0) values >>= λ total. ok (Value.integer total))

  unfoldable pub avg_of : ℕ → ℕ → List Value → Value
  avg_of total n [] = mean f64 total n
  avg_of total n (Value.integer i ∷ values) =
      avg_of (f64.add total (f64.of_i64 i)) (next_count n) values
  avg_of total n (Value.float f ∷ values) = avg_of (f64.add total f) (next_count n) values
  avg_of total n (other ∷ values) = avg_of total n values

  abbrev pub avg_or_null : List Value → Value
  avg_or_null [] = Value.null
  avg_or_null values = avg_of 0 0 values

  -- The branches of `apply_builtin_aggregate`.
  unfoldable pub aggregated : Builtin → List Value → Result Value
  aggregated count values = ok (length_of values)
  aggregated count_distinct values = ok (length_of (distinct [] values))
  aggregated sum values = sum_of values
  aggregated sum_distinct values = sum_of (distinct [] values)
  aggregated min_ values = extreme_of lowest values
  aggregated max_ values = extreme_of highest values
  aggregated avg values = ok (avg_or_null values)

  unfoldable pub apply_builtin_aggregate : Text → List Value → Result Value
  apply_builtin_aggregate name values = elim (builtin_of name) [
    | none ↦ err (coded int029)
    | some b ↦ aggregated b values
  ]
