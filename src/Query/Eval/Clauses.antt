-- ===== src/Query/Eval/Clauses.antt =====
-- `apply_expr_clauses` of src/query/datalog/executor.rs.
use minigraf.Prelude.{Bool, Option, none, some, List, [], ◌∷◌, if◌then◌else◌}
use minigraf.Prelude.Options.{◌>>=◌}
use minigraf.Prelude.Text.{Text}
use minigraf.Prelude.Map.{bytes_key, insert}
use minigraf.Error.{Result, coded, ok, err, qry007}
use minigraf.Rules.Syntax.{UnaryOp, Expr, WhereClause}
use minigraf.Query.Matcher.{UuidCrate, Bindings}
use minigraf.Query.Eval.{
  FloatArithmetic, Predicates, get_predicate, Evaluated, answered, failed, panicked, is_truthy,
  eval_expr,
}

-- `matches!(clause, WhereClause::Expr { expr: Expr::UnaryOp(UnaryOp::Udf(name), _), .. })`
abbrev pub udf_of : WhereClause → Option Text
udf_of (WhereClause.expr (Expr.unary_op (UnaryOp.udf name) arg) binding) = some name
udf_of c = none

abbrev pub unknown_or : Option Text → Predicates → Option Text → Option Text
unknown_or none registry later = later
unknown_or (some name) registry later = elim (get_predicate name registry) [
  | none ↦ some name
  | some desc ↦ later
]

-- The first predicate that is not registered.
unfoldable pub unknown_udf : List WhereClause → Predicates → Option Text
unknown_udf [] registry = none
unknown_udf (c ∷ clauses) registry = unknown_or (udf_of c) registry (unknown_udf clauses registry)

-- One row of `apply_expr_clauses`: `none` is a panic, `some none` drops the row.
abbrev pub kept_row : Bindings → Option Text → Evaluated → Option (Option Bindings)
kept_row b (some var) (answered v) = some (some (insert var v b))
kept_row b none (answered v) = some (if is_truthy v then some b else none)
kept_row b out failed = some none
kept_row b out panicked = none

abbrev pub with_row : Option Bindings → List Bindings → List Bindings
with_row none rows = rows
with_row (some b) rows = b ∷ rows

abbrev pub refused_or : Option Text → Option (List Bindings) → Option (Result (List Bindings))
refused_or (some name) filtered = some (err (coded qry007))
refused_or none filtered = do rows ← filtered; some (ok rows)

module _ (uuid : UuidCrate) (f64 : FloatArithmetic) (is_match : Text → Text → Bool) where
  -- The rows that a clause keeps.
  unfoldable pub filter_rows :
      Expr → Option Text → Predicates → List Bindings → Option (List Bindings)
  filter_rows e out registry [] = some []
  filter_rows e out registry (b ∷ rows) = do
    row ← kept_row b out (eval_expr uuid f64 is_match e b registry)
    others ← filter_rows e out registry rows
    some (with_row row others)

  -- The second loop of `apply_expr_clauses`.
  unfoldable pub filter_each :
      List WhereClause → Predicates → List Bindings → Option (List Bindings)
  filter_each [] registry rows = some rows
  filter_each (WhereClause.expr e out ∷ clauses) registry rows =
      filter_rows e out registry rows >>= filter_each clauses registry
  filter_each (other ∷ clauses) registry rows = filter_each clauses registry rows

  -- `apply_expr_clauses`; `none` is a panic.
  unfoldable pub apply_expr_clauses :
      List Bindings → List WhereClause → Predicates → Option (Result (List Bindings))
  apply_expr_clauses rows clauses registry =
      refused_or (unknown_udf clauses registry) (filter_each clauses registry rows)
