-- ===== src/Query/Eval.antt =====
-- Expressions and expression clauses: `eval_expr` and `apply_expr_clauses` of
-- src/query/datalog/executor.rs, with the predicates of src/query/datalog/functions.rs. The
-- arithmetic of `f64` and the uuid and regex crates are arguments.
pub mod Clauses
pub mod Panics
pub mod Reads
pub mod Ranges
pub mod Rows
pub mod Truthy
pub mod Unknown
pub mod Filters
mod Tests
use minigraf.Prelude.{
  ℕ, suc, ◌+◌, ◌-◌, ◌*◌, ◌/◌, ◌%◌, ◌^◌, Ordering, Bool, true, false, not, ◌&&◌, ◌||◌, Option, none,
  some, [], ◌∷◌, ◌==◌, if◌then◌else◌,
}
use minigraf.Prelude.Options.{◌>>=◌}
use minigraf.Prelude.Int.{ℤ, pos, negsuc, i64_min, cast_unsigned}
use minigraf.Prelude.Order.{compare_bytes}
use minigraf.Prelude.Text.{Text, bytes_eq}
use minigraf.Prelude.Map.{Map, bytes_key, lookup, insert, contains_key}
use minigraf.Error.{Result, coded, ok, err, int040}
use minigraf.Graph.Float.{is_nan, partial_cmp, negate}
use minigraf.Graph.Value.{Value}
use minigraf.Graph.Value.Equal.{value_eq, int_eq, float_eq}
use minigraf.Rules.Syntax.{BinOp, UnaryOp, Expr}
use minigraf.Query.Matcher.{UuidCrate, Bindings, keyword_to_entity_id, cast_signed, starts_with}

-- The operations of `f64`, on bit patterns: `i as f64` and the four of arithmetic.
pub record FloatArithmetic : Type 0 where
  pub of_i64 : ℤ → ℕ
  pub add : ℕ → ℕ → ℕ
  pub sub : ℕ → ℕ → ℕ
  pub mul : ℕ → ℕ → ℕ
  pub div : ℕ → ℕ → ℕ

-- `PredicateDesc`, and the predicates of `FunctionRegistry`.
pub record PredicateDesc : Type 0 where
  pub f : Value → Bool
  pub is_builtin : Bool

abbrev pub Predicates : Type 0
Predicates = Map Text PredicateDesc

-- `FunctionRegistry::register_predicate_desc`
unfoldable pub register_predicate_desc : Text → PredicateDesc → Predicates → Result Predicates
register_predicate_desc name desc predicates =
    if contains_key name predicates then err (coded int040) else ok (insert name desc predicates)

abbrev pub callable : Option PredicateDesc → Option PredicateDesc
callable none = none
callable (some d) = if d.is_builtin then none else some d

-- `FunctionRegistry::get_predicate`
unfoldable pub get_predicate : Text → Predicates → Option PredicateDesc
get_predicate name predicates = callable (lookup name predicates)

-- An answer, `Err(())`, or a panic.
pub data Evaluated : Type 0 where
  answered : Value → Evaluated
  failed : Evaluated
  panicked : Evaluated

abbrev pub test : Bool → Evaluated
test b = answered (Value.boolean b)

unfoldable pub is_truthy : Value → Bool
is_truthy (Value.boolean b) = b
is_truthy (Value.integer i) = not (int_eq i (pos 0))
is_truthy (Value.float f) = not (float_eq f 0)
is_truthy v = false

-- `str::ends_with` and `str::contains`
abbrev pub ends_with : Text → Text → Bool
ends_with suffix [] = bytes_eq suffix []
ends_with suffix (c ∷ s) = bytes_eq suffix (c ∷ s) || ends_with suffix s

abbrev pub contains : Text → Text → Bool
contains needle [] = starts_with needle []
contains needle (c ∷ s) = starts_with needle (c ∷ s) || contains needle s

-- `i64::wrapping_add`, `wrapping_sub` and `wrapping_mul`, in two's complement.
abbrev pub wrapping_add_i64 : ℤ → ℤ → ℤ
wrapping_add_i64 a b = cast_signed ((cast_unsigned a + cast_unsigned b) % 2 ^ 64)

abbrev pub wrapping_sub_i64 : ℤ → ℤ → ℤ
wrapping_sub_i64 a b = cast_signed ((cast_unsigned a + (2 ^ 64 - cast_unsigned b)) % 2 ^ 64)

abbrev pub wrapping_mul_i64 : ℤ → ℤ → ℤ
wrapping_mul_i64 a b = cast_signed ((cast_unsigned a * cast_unsigned b) % 2 ^ 64)

-- `a / b` on `i64`, towards 0, where it neither divides by 0 nor overflows.
abbrev pub quotient : ℤ → ℤ → ℤ
quotient (pos a) (pos b) = pos (a / b)
quotient (pos a) (negsuc b) = negate (a / suc b)
quotient (negsuc a) (pos b) = negate (suc a / b)
quotient (negsuc a) (negsuc b) = pos (suc a / suc b)

-- The smallest integer divided by -1 overflows, which panics.
abbrev pub div_integers : ℤ → ℤ → Evaluated
div_integers a b =
    if int_eq b (pos 0)
    then failed
    else if int_eq a i64_min && int_eq b (negsuc 0)
    then panicked
    else answered (Value.integer (quotient a b))

abbrev pub not_nan : ℕ → Evaluated
not_nan r = if is_nan r then failed else answered (Value.float r)

abbrev pub compared : (Ordering → Bool) → Option (Option Ordering) → Evaluated
compared decide none = failed
compared decide (some none) = test false
compared decide (some (some o)) = test (decide o)

abbrev pub is_lt : Ordering → Bool
is_lt Ordering.lt = true
is_lt o = false

abbrev pub is_gt : Ordering → Bool
is_gt Ordering.gt = true
is_gt o = false

abbrev pub on_floats : (ℕ → ℕ → Evaluated) → Option (ℕ × ℕ) → Evaluated
on_floats next none = failed
on_floats next (some (lf, rf)) = next lf rf

abbrev pub on_strings : (Text → Text → Bool) → Value → Value → Evaluated
on_strings decide (Value.string a) (Value.string b) = test (decide a b)
on_strings decide l r = failed

-- The test of a type.
abbrev pub has_type : UnaryOp → Value → Bool
has_type UnaryOp.string_q (Value.string s) = true
has_type UnaryOp.integer_q (Value.integer n) = true
has_type UnaryOp.float_q (Value.float f) = true
has_type UnaryOp.boolean_q (Value.boolean b) = true
has_type UnaryOp.nil_q Value.null = true
has_type op v = false

abbrev pub answer_or : Option Value → Evaluated
answer_or none = failed
answer_or (some v) = answered v

abbrev pub called : Value → Option PredicateDesc → Evaluated
called v none = failed
called v (some desc) = test (desc.f v)

-- The operator `?`.
abbrev pub after : Evaluated → (Value → Evaluated) → Evaluated
after (answered v) next = next v
after failed next = failed
after panicked next = panicked

module _ (uuid : UuidCrate) (f64 : FloatArithmetic) (is_match : Text → Text → Bool) where
  unfoldable pub expr_eq : Value → Value → Bool
  expr_eq (Value.keyword k) (Value.ref u) = keyword_to_entity_id uuid k == u
  expr_eq (Value.ref u) (Value.keyword k) = keyword_to_entity_id uuid k == u
  expr_eq l r = value_eq l r

  abbrev pub to_float : Value → Option ℕ
  to_float (Value.integer i) = some (f64.of_i64 i)
  to_float (Value.float f) = some f
  to_float v = none

  unfoldable pub to_float_pair : Value → Value → Option (ℕ × ℕ)
  to_float_pair l r = do lf ← to_float l; rf ← to_float r; some (lf, rf)

  -- The ordering that a comparison reads; `none` is a type error.
  unfoldable pub ordering_of : Value → Value → Option (Option Ordering)
  ordering_of (Value.string a) (Value.string b) = some (some (compare_bytes a b))
  ordering_of l r = do (lf, rf) ← to_float_pair l r; some (partial_cmp lf rf)

  abbrev pub on_numbers : (ℤ → ℤ → Evaluated) → (ℕ → ℕ → Evaluated) → Value → Value → Evaluated
  on_numbers integers floats (Value.integer a) (Value.integer b) = integers a b
  on_numbers integers floats l r = on_floats floats (to_float_pair l r)

  abbrev pub div_floats : ℕ → ℕ → Evaluated
  div_floats lf rf =
      if float_eq rf 0 || is_nan rf then failed else answered (Value.float (f64.div lf rf))

  unfoldable pub eval_binop : BinOp → Value → Value → Evaluated
  eval_binop BinOp.eq l r = test (expr_eq l r)
  eval_binop BinOp.neq l r = test (not (expr_eq l r))
  eval_binop BinOp.lt l r = compared is_lt (ordering_of l r)
  eval_binop BinOp.gt l r = compared is_gt (ordering_of l r)
  eval_binop BinOp.lte l r = compared (λ o. not (is_gt o)) (ordering_of l r)
  eval_binop BinOp.gte l r = compared (λ o. not (is_lt o)) (ordering_of l r)
  eval_binop BinOp.add l r =
      on_numbers (λ a b. answered (Value.integer (wrapping_add_i64 a b)))
        (λ lf rf. not_nan (f64.add lf rf)) l r
  eval_binop BinOp.sub l r =
      on_numbers (λ a b. answered (Value.integer (wrapping_sub_i64 a b)))
        (λ lf rf. not_nan (f64.sub lf rf)) l r
  eval_binop BinOp.mul l r =
      on_numbers (λ a b. answered (Value.integer (wrapping_mul_i64 a b)))
        (λ lf rf. not_nan (f64.mul lf rf)) l r
  eval_binop BinOp.div l r = on_numbers div_integers div_floats l r
  eval_binop BinOp.starts_with l r = on_strings (λ s prefix. starts_with prefix s) l r
  eval_binop BinOp.ends_with l r = on_strings (λ s suffix. ends_with suffix s) l r
  eval_binop BinOp.contains l r = on_strings (λ s needle. contains needle s) l r
  eval_binop (BinOp.matches regex) l r = on_strings (λ s pattern. is_match regex s) l r

  abbrev pub eval_unary : Predicates → UnaryOp → Value → Evaluated
  eval_unary registry (UnaryOp.udf name) v = called v (get_predicate name registry)
  eval_unary registry op v = test (has_type op v)

  -- `eval_expr`; without a registry, with an empty one.
  unfoldable pub eval_expr : Expr → Bindings → Predicates → Evaluated
  eval_expr (Expr.var v) binding registry = answer_or (lookup v binding)
  eval_expr (Expr.lit v) binding registry = answered v
  eval_expr (Expr.slot s) binding registry = failed
  eval_expr (Expr.unary_op op arg) binding registry =
      after (eval_expr arg binding registry) (eval_unary registry op)
  eval_expr (Expr.bin_op op lhs rhs) binding registry =
      after (eval_expr lhs binding registry)
        (λ l. after (eval_expr rhs binding registry) (λ r. eval_binop op l r))
