-- ===== src/Rules/Tests.antt =====
-- The rule theorems at small rule sets.
use minigraf.Prelude.Text.{Text}
use minigraf.Error.{Result}
use minigraf.Prelude.{◌≡◌, refl, Bool, true, some, List, [], ◌∷◌, arith, length}
use minigraf.Rules.Syntax.{Rule, rule_invocation, not_, clause, no_clauses}
use minigraf.Rules.Dependencies.{
  DependencyGraph, from_rules, reaches, add_all, add_rules, add_rule, extend_edges, body_deps,
  collect_clause_deps, negated_deps, names,
}
use minigraf.Rules.Dependencies.Reach.{Says, reaches_lem}
use minigraf.Rules.Stratify.{Strata, predicates, all_predicates, add_names, stratify, raised_edges}
use minigraf.Rules.Stratify.Relax.{constraints}
use minigraf.Rules.Stratify.Answers.{IsAnswer, stratify_lem}
use minigraf.Rules.Registry.{
  RuleRegistry, register_rule, register_rule_unchecked, Registers, register_rule_lem,
}

abbrev p_name : Text
p_name = 112 ∷ []

abbrev q_name : Text
q_name = 113 ∷ []

-- `p` calls `q` negatively.
abbrev graph : DependencyGraph
graph = record { edges = (p_name, (q_name, true) ∷ []) ∷ []; mixed = p_name ∷ [] }

reaches_lem_example :
    (answer : Bool) × (reaches graph p_name q_name ≡ some answer)
    × Says graph.edges q_name p_name answer
reaches_lem_example = reaches_lem graph p_name q_name

two_predicates : length (predicates graph) ≡ 2
unfolding all_predicates add_names names
two_predicates = refl

stratify_lem_example :
    (raised : List (Text × Text)) × (outcome : Result Strata) × (raised_edges graph graph.edges
      ≡ some raised)
    × (stratify graph ≡ some outcome)
    × IsAnswer (length (predicates graph)) (constraints raised graph.edges) outcome
stratify_lem_example = stratify_lem graph (omega (arith, two_predicates))

abbrev negative : Rule
negative = record { head = []; body = not_ (clause (rule_invocation q_name []) no_clauses) ∷ [] }

two_registered : length (predicates (from_rules (register_rule_unchecked p_name negative []))) ≡ 2
unfolding register_rule_unchecked from_rules add_all add_rules add_rule extend_edges body_deps
    collect_clause_deps negated_deps all_predicates add_names names
two_registered = refl

register_rule_lem_example :
    (answer : Result (Unit {0}) × RuleRegistry) × (register_rule p_name negative [] ≡ some answer)
    × Registers p_name negative [] answer
register_rule_lem_example = register_rule_lem p_name negative [] tt (omega (arith, two_registered))
