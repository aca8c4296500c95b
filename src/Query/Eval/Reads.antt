-- ===== src/Query/Eval/Reads.antt =====
-- What an expression reads (src/query/datalog/executor.rs).
use minigraf.Prelude.{◌≡◌, refl, ap, ap₂, inl, Bool, List}
use minigraf.Prelude.Text.{Text}
use minigraf.Prelude.Map.{bytes_key, lookup}
use minigraf.Prelude.OrderedMap.Entries.{IsIn}
use minigraf.Rules.Syntax.{Expr}
use minigraf.Query.Matcher.{UuidCrate, Bindings}
use minigraf.Query.Optimizer.{expr_vars}
use minigraf.Query.Optimizer.Sets.{IsIn-append_left, IsIn-append_right}
use minigraf.Query.Eval.{
  FloatArithmetic, Predicates, answer_or, after, eval_unary, eval_binop, eval_expr,
}

module _ (uuid : UuidCrate) (f64 : FloatArithmetic) (is_match : Text → Text → Bool) where
  -- The two rows bind the variables alike.
  abbrev pub Agree : List Text → Bindings → Bindings → Type 0
  Agree vars b c = (v : Text) → IsIn v vars → lookup v b ≡ lookup v c

  -- An expression has one value on rows that bind alike the variables that the optimizer counts
  -- for it: no other binding is read.
  pub eval_expr-Agree :
      (e : Expr) (b c : Bindings) (registry : Predicates)
      → Agree (expr_vars e) b c
      → eval_expr uuid f64 is_match e b registry ≡ eval_expr uuid f64 is_match e c registry
  unfolding eval_expr expr_vars
  eval_expr-Agree (Expr.var v) b c registry alike = ap answer_or (alike v (inl refl))
  eval_expr-Agree (Expr.lit v) b c registry alike = refl
  eval_expr-Agree (Expr.slot s) b c registry alike = refl
  eval_expr-Agree (Expr.unary_op op arg) b c registry alike =
      ap (λ x. after x (eval_unary uuid f64 is_match registry op))
        (eval_expr-Agree arg b c registry alike)
  eval_expr-Agree (Expr.bin_op op lhs rhs) b c registry alike =
      ap₂ (λ x y. after x (λ l. after y (λ r. eval_binop uuid f64 is_match op l r)))
        (eval_expr-Agree lhs b c registry
          (λ v i. alike v (IsIn-append_left v (expr_vars lhs) (expr_vars rhs) i)))
        (eval_expr-Agree rhs b c registry
          (λ v i. alike v (IsIn-append_right v (expr_vars lhs) (expr_vars rhs) i)))
