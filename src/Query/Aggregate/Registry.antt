-- ===== src/Query/Aggregate/Registry.antt =====
-- The aggregate functions of `FunctionRegistry` (src/query/datalog/functions.rs). `Box<dyn Any>`,
-- the accumulator of a user-defined function, is the type `Any`.
use minigraf.Prelude.{ℕ, Bool, true, false, ◌||◌, Option, [], ◌∷◌, map, if◌then◌else◌}
use minigraf.Error.{coded, Result, ok, err}
use minigraf.Error.{int040}
use minigraf.Prelude.Int.{ℤ}
use minigraf.Prelude.Text.{Text, codes, bytes_eq}
use minigraf.Prelude.Map.{Map, lookup, insert, contains_key, bytes_key}
use minigraf.Graph.Value.{Value}
use minigraf.Query.Eval.{FloatArithmetic, PredicateDesc, Predicates}
use minigraf.Query.Aggregate.{WindowOps, count_ops, sum_ops, min_ops, max_ops, avg_ops, stub_ops}

-- `UdfOps`
pub record UdfOps (Any : Type 0) : Type 0 where
  pub init : Any
  pub step : Any → Value → Any
  pub finalise : Any → ℕ → Value

-- `AggImpl`
pub data AggImpl (Any : Type 0) : Type 0 where
  builtin : WindowOps → AggImpl Any
  udf : UdfOps Any → AggImpl Any

-- `AggregateDesc`
pub record AggregateDesc (Any : Type 0) : Type 0 where
  pub impl_ : AggImpl Any
  pub is_builtin : Bool

-- The aggregates of `FunctionRegistry`.
abbrev pub Aggregates : Type 0 → Type 0
Aggregates Any = Map Text (AggregateDesc Any)

module _ {Any : Type 0} where
  abbrev pub builtin_desc : WindowOps → AggregateDesc Any
  builtin_desc ops = record { impl_ = AggImpl.builtin ops; is_builtin = true }

  -- `FunctionRegistry::with_builtins`
  abbrev pub with_builtins : FloatArithmetic → (ℕ → ℤ) → Aggregates Any
  with_builtins f64 to_i64 =
      (codes "count", builtin_desc count_ops)
      ∷ (codes "sum", builtin_desc (sum_ops f64 to_i64))
      ∷ (codes "min", builtin_desc (min_ops f64))
      ∷ (codes "max", builtin_desc (max_ops f64))
      ∷ (codes "avg", builtin_desc (avg_ops f64))
      ∷ (codes "count-distinct", builtin_desc stub_ops)
      ∷ (codes "sum-distinct", builtin_desc stub_ops)
      ∷ []

  -- `FunctionRegistry::get`
  abbrev pub get : Aggregates Any → Text → Option (AggregateDesc Any)
  get aggregates name = lookup name aggregates

  -- `FunctionRegistry::is_known`
  abbrev pub is_known : Aggregates Any → Text → Bool
  is_known aggregates name = contains_key name aggregates

  -- `FunctionRegistry::is_window_compatible`
  abbrev pub is_window_compatible : Aggregates Any → Text → Bool
  is_window_compatible aggregates name =
      if bytes_eq name (codes "count-distinct") || bytes_eq name (codes "sum-distinct")
      then false
      else contains_key name aggregates

  -- `FunctionRegistry::register_aggregate_desc`
  unfoldable pub register_aggregate_desc :
      Text → AggregateDesc Any → Aggregates Any → Result (Aggregates Any)
  register_aggregate_desc name desc aggregates =
      if contains_key name aggregates then err (coded int040) else ok (insert name desc aggregates)

-- The names of the built-in predicates, which no user-defined one may take.
abbrev pub sentinel : Text → Text × PredicateDesc
sentinel name = (name, record { f = λ v. false; is_builtin = true })

abbrev pub builtin_predicates : Predicates
builtin_predicates = map sentinel (
    codes "string?"
    ∷ codes "integer?"
    ∷ codes "float?"
    ∷ codes "boolean?"
    ∷ codes "nil?"
    ∷ codes "starts-with?"
    ∷ codes "ends-with?"
    ∷ codes "contains?"
    ∷ codes "matches?"
    ∷ [])
