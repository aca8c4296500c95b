-- ===== src/Query/Optimizer.antt =====
-- src/query/datalog/optimizer.rs: the index of a pattern, costs, and the plan of a body, as they
-- are built without the `wasm` feature.
pub mod Plan
pub mod Sets
pub mod Sort
pub mod Positions
pub mod Safe
pub mod Once
pub mod Complete
mod Tests
use minigraf.Prelude.{
  ℕ, ◌+◌, ◌-◌, ◌^◌, min, Bool, true, false, not, ◌&&◌, Option, none, some, List, [], ◌∷◌, ◌++◌,
  ◌==◌, if◌then◌else◌,
}
use mathlib.Core.Option
use minigraf.Prelude.Text.{Text, codes}
use minigraf.Rules.Syntax.{
  EdnValue, AttributeSpec, real, pseudo, Pattern, Expr, WhereClause, Clauses, no_clauses, clause,
  Branches, no_branches, branch,
}
use minigraf.Query.Matcher.{starts_with, variable_of}
use minigraf.Query.Matcher.Join.{IndexHint, eavt, aevt, avet, vaet}

-- `EdnValue::is_variable`
abbrev pub is_variable : EdnValue → Bool
is_variable (EdnValue.symbol s) = starts_with (codes "?") s
is_variable component = false

abbrev pub is_entity_literal : EdnValue → Bool
is_entity_literal (EdnValue.uuid id) = true
is_entity_literal component = false

abbrev pub attr_is_index_bound : AttributeSpec → Bool
attr_is_index_bound (real edn) = not (is_variable edn)
attr_is_index_bound (pseudo p) = false

abbrev pub as_u8 : Bool → ℕ
as_u8 true = 1
as_u8 false = 0

-- `u8::saturating_add`
abbrev saturating_add_u8 : ℕ → ℕ → ℕ
saturating_add_u8 a b = min (a + b) 255

unfoldable pub selectivity_score : Pattern → ℕ
selectivity_score p =
    saturating_add_u8
      (saturating_add_u8 (as_u8 (not (is_variable p.entity)))
        (as_u8 (attr_is_index_bound p.attribute)))
      (as_u8 (not (is_variable p.value)))

unfoldable pub select_index : Pattern → IndexHint
select_index p =
    let e_bound = not (is_variable p.entity) in
    let a_bound = attr_is_index_bound p.attribute in
    let v_bound = not (is_variable p.value) in
    if e_bound
    then eavt
    else if a_bound && v_bound
    then avet
    else if a_bound
    then aevt
    else if v_bound && is_entity_literal p.value
    then vaet
    else eavt

unfoldable pub expr_vars : Expr → List Text
expr_vars (Expr.var s) = s ∷ []
expr_vars (Expr.lit v) = []
expr_vars (Expr.slot s) = []
expr_vars (Expr.bin_op op l r) = expr_vars l ++ expr_vars r
expr_vars (Expr.unary_op op inner) = expr_vars inner

abbrev pub listed : Option Text → List Text
listed none = []
listed (some s) = s ∷ []

-- The variables of an attribute that is stored.
abbrev pub attribute_vars : AttributeSpec → List Text
attribute_vars (real edn) = listed (variable_of edn)
attribute_vars (pseudo p) = []

unfoldable pub pattern_bound_vars : Pattern → List Text
pattern_bound_vars p =
    listed (variable_of p.entity) ++ (attribute_vars p.attribute ++ listed (variable_of p.value))

-- The variables among the arguments of a rule.
unfoldable pub argument_vars : List EdnValue → List Text
argument_vars [] = []
argument_vars (a ∷ args) = listed (variable_of a) ++ argument_vars args

-- `clause_ref_vars`, whose set is a list.
unfoldable mutual
  pub ref_vars : WhereClause → List Text
  ref_vars (WhereClause.pattern p) = pattern_bound_vars p
  ref_vars (WhereClause.expr e binding) = expr_vars e ++ listed binding
  ref_vars (WhereClause.not_ inner) = clause_ref_vars inner
  ref_vars (WhereClause.not_join join_vars inner) = clause_ref_vars inner
  ref_vars (WhereClause.rule_invocation predicate args) = argument_vars args
  ref_vars (WhereClause.or_ bs) = []
  ref_vars (WhereClause.or_join join_vars bs) = []

  pub clause_ref_vars : Clauses → List Text
  clause_ref_vars no_clauses = []
  clause_ref_vars (clause c rest) = ref_vars c ++ clause_ref_vars rest

unfoldable pub pattern_cost : Pattern → ℕ
pattern_cost p =
    let bound =
      as_u8 (not (is_variable p.entity))
      + as_u8 (attr_is_index_bound p.attribute)
      + as_u8 (not (is_variable p.value)) in
    if bound == 3 then 1 else if bound == 2 then 10 else if bound == 1 then 100 else 10_000

-- The costs of the patterns of a branch.
unfoldable pub pattern_costs : Clauses → List ℕ
pattern_costs no_clauses = []
pattern_costs (clause (WhereClause.pattern p) rest) = pattern_cost p ∷ pattern_costs rest
pattern_costs (clause other rest) = pattern_costs rest

abbrev lowest : ℕ → List ℕ → ℕ
lowest least [] = least
lowest least (c ∷ costs) = lowest (min least c) costs

-- `iter().min().unwrap_or(0)`
abbrev lowest_or_zero : List ℕ → ℕ
lowest_or_zero [] = 0
lowest_or_zero (c ∷ costs) = lowest c costs

unfoldable pub branch_cost : Clauses → ℕ
branch_cost body = lowest_or_zero (pattern_costs body)

-- The sum of the costs of the branches.
unfoldable pub branches_cost : Branches → ℕ
branches_cost no_branches = 0
branches_cost (branch b rest) = branch_cost b + branches_cost rest

unfoldable pub clause_cost : WhereClause → ℕ
clause_cost (WhereClause.pattern p) = pattern_cost p
clause_cost (WhereClause.expr e binding) = 0
clause_cost (WhereClause.not_ body) = branch_cost body
clause_cost (WhereClause.not_join join_vars body) = branch_cost body
clause_cost (WhereClause.or_ bs) = branches_cost bs
clause_cost (WhereClause.or_join join_vars bs) = branches_cost bs
clause_cost (WhereClause.rule_invocation predicate args) = 2 ^ 64 - 1
