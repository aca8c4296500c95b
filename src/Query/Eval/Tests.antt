-- ===== src/Query/Eval/Tests.antt =====
-- Expressions evaluated, and the witnesses.
use minigraf.Prelude.{
  ◌+◌, ◌-◌, ◌*◌, ◌/◌, ◌%◌, ◌^◌, ◌≡◌, refl, ◌↔◌, inl, inr, Bool, false, none, some, List, [], ◌∷◌,
  arith, length,
}
use minigraf.Prelude.Text.{Text, codes}
use minigraf.Prelude.Int.{pos, negsuc, i64_min, i64_max, cast_unsigned}
use minigraf.Graph.Value.{Value}
use minigraf.Rules.Syntax.{BinOp, Expr, WhereClause}
use minigraf.Query.Matcher.{UuidCrate, Bindings}
use minigraf.Query.Optimizer.{expr_vars}
use minigraf.Query.Eval.{FloatArithmetic, answered, panicked, eval_binop, eval_expr}
use minigraf.Query.Eval.Clauses.{apply_expr_clauses}
use minigraf.Query.Eval.Panics.{Overflows, eval_binop-panics_iff}
use minigraf.Query.Eval.Reads.{Agree, eval_expr-Agree}
use minigraf.Query.Eval.Ranges.{Answers, IsArithmetic, eval_expr-Answers}
use minigraf.Query.Eval.Filters.{IsFiltered, apply_expr_clauses-IsFiltered}

abbrev crate : UuidCrate
crate = record { parse_str = λ s. none; new_v5 = length; to_string = λ id. id ∷ [] }

-- Arithmetic that wraps at 64 bits.
abbrev bit_arithmetic : FloatArithmetic
bit_arithmetic = record {
  of_i64 = cast_unsigned;
  add = λ a b. (a + b) % 2 ^ 64;
  sub = λ a b. (a + (2 ^ 64 - b % 2 ^ 64)) % 2 ^ 64;
  mul = λ a b. (a * b) % 2 ^ 64;
  div = λ a b. (a / b) % 2 ^ 64;
}

bit_arithmetic-IsArithmetic : IsArithmetic bit_arithmetic
bit_arithmetic-IsArithmetic = record {
  add_bits = λ a b. omega arith;
  sub_bits = λ a b. omega arith;
  mul_bits = λ a b. ground arith;
  div_bits = λ a b. ground arith;
}

abbrev no_match : Text → Text → Bool
no_match regex s = false

abbrev age : Text
age = codes "?age"

abbrev next_age : Expr
next_age = Expr.bin_op BinOp.add (Expr.var age) (Expr.lit (Value.integer (pos 1)))

abbrev oldest : Bindings
oldest = (age, Value.integer i64_max) ∷ []

abbrev oldest_named : Bindings
oldest_named = (codes "?name", Value.null) ∷ oldest

-- An addition wraps around.
next_wraps :
    eval_expr crate bit_arithmetic no_match next_age oldest [] ≡ answered (Value.integer i64_min)
unfolding eval_expr eval_binop
next_wraps = refl

eval_binop-panics_iff_example :
    (eval_binop crate bit_arithmetic no_match BinOp.div
        (Value.integer i64_min)
        (Value.integer (negsuc 0))
      ≡ panicked)
    ↔ Overflows BinOp.div (Value.integer i64_min) (Value.integer (negsuc 0))
eval_binop-panics_iff_example =
    eval_binop-panics_iff crate bit_arithmetic no_match BinOp.div (Value.integer i64_min)
      (Value.integer (negsuc 0))

alike : Agree crate bit_arithmetic no_match (expr_vars next_age) oldest oldest_named
unfolding expr_vars
alike v (inl e) = rw e refl
alike v (inr never) = absurd never

eval_expr-Agree_example :
    eval_expr crate bit_arithmetic no_match next_age oldest []
    ≡ eval_expr crate bit_arithmetic no_match next_age oldest_named []
eval_expr-Agree_example =
    eval_expr-Agree crate bit_arithmetic no_match next_age oldest oldest_named [] alike

eval_expr-Answers_example : Answers (eval_expr crate bit_arithmetic no_match next_age oldest [])
eval_expr-Answers_example =
    eval_expr-Answers crate bit_arithmetic no_match bit_arithmetic-IsArithmetic next_age oldest []
      (tt, omega arith) (omega arith, tt)

-- `[(+ ?age 1) ?next]` and `[(< ?next ?age)]`
abbrev wrapped_ages : List WhereClause
wrapped_ages =
    WhereClause.expr next_age (some (codes "?next"))
    ∷ WhereClause.expr (Expr.bin_op BinOp.lt (Expr.var (codes "?next")) (Expr.var age)) none
    ∷ []

abbrev two_rows : List Bindings
two_rows = oldest ∷ ((age, Value.string age) ∷ []) ∷ []

apply_expr_clauses-IsFiltered_example :
    IsFiltered crate bit_arithmetic no_match [] wrapped_ages two_rows
      (apply_expr_clauses crate bit_arithmetic no_match two_rows wrapped_ages [])
apply_expr_clauses-IsFiltered_example =
    apply_expr_clauses-IsFiltered crate bit_arithmetic no_match two_rows wrapped_ages []
