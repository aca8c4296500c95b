-- ===== src/Query/Optimizer/Tests.antt =====
-- A body planned, and the witnesses.
use minigraf.Prelude.{String, ◌≡◌, refl, none, some, List, [], ◌∷◌}
use minigraf.Prelude.Text.{codes}
use minigraf.Prelude.Int.{pos}
use minigraf.Graph.Value.{Value}
use minigraf.Rules.Syntax.{EdnValue, real, Pattern, BinOp, Expr, WhereClause, no_clauses, clause}
use minigraf.Query.Matcher.{variable_of}
use minigraf.Query.Matcher.Join.{eavt, aevt}
use minigraf.Query.Optimizer.{
  select_index, selectivity_score, pattern_bound_vars, expr_vars, clause_ref_vars, ref_vars,
  clause_cost, branch_cost, pattern_costs, pattern_cost,
}
use minigraf.Query.Optimizer.Plan.{
  is_subset, planned, plan, patterns_of, exprs_of, nots_of, sort_by_reverse, insert_by, insert_at,
  start, all_pattern_vars, pattern_vars, bound_pos, expr_pos, place_expr, place_exprs, required,
  place_not, place_nots,
}

abbrev symbol : String → EdnValue
symbol s = EdnValue.symbol (codes s)

-- `[?e ?a ?v]`
abbrev anything : Pattern
anything = record {
  entity = symbol "?e";
  attribute = real (symbol "?a");
  value = symbol "?v";
  valid_from = none;
  valid_to = none;
}

-- `[?e :age ?n]`
abbrev aged : Pattern
aged = record anything { attribute = real (EdnValue.keyword (codes ":age")); value = symbol "?n" }

-- `[(+ ?n 1) ?m]`
abbrev older : WhereClause
older =
    WhereClause.expr
      (Expr.bin_op BinOp.add (Expr.var (codes "?n")) (Expr.lit (Value.integer (pos 1))))
      (some (codes "?m"))

-- `[(< ?m ?z)]`, whose `?z` nothing binds.
abbrev waiting : WhereClause
waiting =
    WhereClause.expr (Expr.bin_op BinOp.lt (Expr.var (codes "?m")) (Expr.var (codes "?z"))) none

-- `(not [?e :age ?n])`
abbrev not_aged : WhereClause
not_aged = WhereClause.not_ (clause (WhereClause.pattern aged) no_clauses)

abbrev body : List WhereClause
body = older ∷ waiting ∷ not_aged ∷ WhereClause.pattern anything ∷ WhereClause.pattern aged ∷ []

-- The more selective pattern comes first, what it binds is used at once, and `waiting` waits.
body_plan : plan body ≡ (
  (WhereClause.pattern aged, some aevt)
      ∷ (not_aged, none)
      ∷ (older, none)
      ∷ (WhereClause.pattern anything, some eavt)
      ∷ [],
  waiting ∷ [],
)
unfolding plan planned patterns_of exprs_of nots_of select_index selectivity_score sort_by_reverse
    insert_by insert_at start all_pattern_vars pattern_bound_vars pattern_vars bound_pos expr_vars
    expr_pos place_expr place_exprs required clause_ref_vars ref_vars place_not place_nots
    clause_cost branch_cost pattern_costs pattern_cost is_subset variable_of
body_plan = refl
