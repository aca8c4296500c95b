-- ===== src/Rules/Dependencies.antt =====
-- The dependency graph of src/query/datalog/stratification.rs.
pub mod Visit
pub mod Reach
use minigraf.Prelude.Order.{compare_bytes}
use minigraf.Prelude.Text.{Text, bytes_eq}
use minigraf.Error.{◌>>=◌, ◌>>◌}
use minigraf.Prelude.{
  ℕ, zero, suc, Ordering, Bool, true, false, Option, none, some, List, [], ◌∷◌, ◌++◌, if◌then◌else◌,
  length, any,
}
use minigraf.Prelude.Map.{Map, bytes_key, lookup}
use minigraf.Rules.Syntax.{
  WhereClause, pattern, rule_invocation, not_, not_join, expr, or_, or_join, Clauses, no_clauses,
  clause, Branches, no_branches, branch, Rule,
}

-- A dependency with its sign: `true` for a negative one.
abbrev pub Dependency : Type 0
Dependency = Text × Bool

-- The predicates that a negated body calls directly.
unfoldable pub negated_deps : Clauses → List Dependency
negated_deps no_clauses = []
negated_deps (clause (rule_invocation predicate args) rest) = (predicate, true) ∷ negated_deps rest
negated_deps (clause other rest) = negated_deps rest

-- `collect_clause_deps`, as the list of what it pushes.
unfoldable mutual
  pub collect_clause_deps : WhereClause → List Dependency
  collect_clause_deps (pattern p) = []
  collect_clause_deps (rule_invocation predicate args) = (predicate, false) ∷ []
  collect_clause_deps (not_ inner) = negated_deps inner
  collect_clause_deps (not_join join_vars inner) = negated_deps inner
  collect_clause_deps (expr e binding) = []
  collect_clause_deps (or_ bs) = branch_deps bs
  collect_clause_deps (or_join join_vars bs) = branch_deps bs

  pub clauses_deps : Clauses → List Dependency
  clauses_deps no_clauses = []
  clauses_deps (clause c rest) = collect_clause_deps c ++ clauses_deps rest

  pub branch_deps : Branches → List Dependency
  branch_deps no_branches = []
  branch_deps (branch clauses rest) = clauses_deps clauses ++ branch_deps rest

unfoldable pub body_deps : List WhereClause → List Dependency
body_deps [] = []
body_deps (c ∷ body) = collect_clause_deps c ++ body_deps body

unfoldable pub is_mixed : WhereClause → Bool
is_mixed (not_ inner) = true
is_mixed (not_join join_vars inner) = true
is_mixed (or_ bs) = true
is_mixed (or_join join_vars bs) = true
is_mixed (pattern p) = false
is_mixed (rule_invocation predicate args) = false
is_mixed (expr e binding) = false

-- `has_mixed_clause`
unfoldable pub has_mixed_clause : List WhereClause → Bool
has_mixed_clause body = any is_mixed body

-- `DependencyGraph`
pub record DependencyGraph : Type 0 where
  pub edges : List (Text × List Dependency)
  pub mixed : List Text

-- A set of names in the order of insertion.
abbrev pub holds : Text → List Text → Bool
holds p names = any (bytes_eq p) names

abbrev pub add_name : Text → List Text → List Text
add_name p names = if holds p names then names else names ++ p ∷ []

-- `edges.entry(head).or_default()`, extended by some dependencies; the heads stay sorted.
unfoldable pub extend_edges :
    Text → List Dependency → List (Text × List Dependency) → List (Text × List Dependency)
extend_edges head deps [] = (head, deps) ∷ []
extend_edges head deps ((h, old) ∷ edges) =
    let rest = extend_edges head deps edges in
    elim (compare_bytes head h) [
      | Ordering.lt ↦ (head, deps) ∷ (h, old) ∷ edges
      | Ordering.eq ↦ (h, old ++ deps) ∷ edges
      | Ordering.gt ↦ (h, old) ∷ rest
    ]

-- One rule of `from_rules`.
unfoldable pub add_rule : Text → Rule → DependencyGraph → DependencyGraph
add_rule head rule g = record {
  edges = extend_edges head (body_deps rule.body) g.edges;
  mixed = if has_mixed_clause rule.body then add_name head g.mixed else g.mixed;
}

unfoldable pub add_rules : Text → List Rule → DependencyGraph → DependencyGraph
add_rules head [] g = g
add_rules head (rule ∷ rules) g = add_rules head rules (add_rule head rule g)

unfoldable pub add_all : Map Text (List Rule) → DependencyGraph → DependencyGraph
add_all [] g = g
add_all ((head, rules) ∷ registry) g = add_all registry (add_rules head rules g)

-- `DependencyGraph::from_rules`
unfoldable pub from_rules : Map Text (List Rule) → DependencyGraph
from_rules registry = add_all registry (record { edges = []; mixed = [] })

-- The dependencies of a predicate, without their signs.
unfoldable pub names : List Dependency → List Text
names [] = []
names ((dep, negative) ∷ deps) = dep ∷ names deps

abbrev pub no_dependencies : Option (List Dependency) → List Dependency
no_dependencies none = []
no_dependencies (some deps) = deps

abbrev pub callees : List (Text × List Dependency) → Text → List Text
callees edges p = names (no_dependencies (lookup p edges))

-- The inner loop of `reaches`: the new names go on the stack, unless one of them is `to`.
unfoldable pub visit : Text → List Text → List Text → List Text → Option (List Text × List Text)
visit to [] seen stack = some (seen, stack)
visit to (dep ∷ deps) seen stack =
    if bytes_eq dep to
    then none
    else if holds dep seen
    then visit to deps seen stack
    else visit to deps (dep ∷ seen) (dep ∷ stack)

-- The outer loop of `reaches`: `none` when the fuel is used up.
unfoldable pub search_from :
    ℕ → List (Text × List Dependency) → Text → List Text → List Text → Option Bool
search_from fuel edges to seen [] = some false
search_from zero edges to seen (p ∷ stack) = none
search_from (suc fuel) edges to seen (p ∷ stack) = elim (visit to (callees edges p) seen stack) [
  | none ↦ some true
  | some (seen', stack') ↦ search_from fuel edges to seen' stack'
]

unfoldable pub all_callees : List (Text × List Dependency) → List Text
all_callees [] = []
all_callees ((head, deps) ∷ edges) = names deps ++ all_callees edges

-- `DependencyGraph::reaches`: each round takes a name off the stack, and a name goes on it once.
unfoldable pub reaches : DependencyGraph → Text → Text → Option Bool
reaches g from to = search_from (suc (length (all_callees g.edges))) g.edges to [] (from ∷ [])
