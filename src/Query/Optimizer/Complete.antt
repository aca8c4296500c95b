-- ===== src/Query/Optimizer/Complete.antt =====
-- A plan loses no clause and repeats none, and orders its patterns (src/query/datalog/optimizer.rs).
use minigraf.Prelude.{◌≡◌, Bool, true, false, List, ◌++◌, map, keep}
use mathlib.Core.List.{Perm}
use minigraf.Prelude.Text.{Text}
use minigraf.Rules.Syntax.{Pattern, WhereClause}
use minigraf.Query.Matcher.Join.{IndexHint}
use minigraf.Query.Optimizer.Sort.{IsDescending}
use minigraf.Query.Optimizer.Plan.{Planned, patterns_of, hinted, score_of}
use minigraf.Query.Optimizer.Once.{is_plannable}

-- The patterns of a plan.
abbrev pub is_pattern : WhereClause → Bool
is_pattern (WhereClause.pattern p) = true
is_pattern other = false

abbrev pub patterns_in : List Planned → List Planned
patterns_in result = keep (λ entry. is_pattern entry.0) result

-- The plan and what is deferred are the clauses but those that are skipped; the patterns stand in
-- it with their hints, and their scores never grow.
abbrev pub IsPlan : List WhereClause → List Planned × List WhereClause → Type 0
IsPlan clauses (result, deferred) =
    Perm (map (λ entry. entry.0) result ++ deferred) (keep is_plannable clauses)
    × ((patterns : List (Pattern × IndexHint)) × (patterns_in result ≡ map hinted patterns)
        × Perm patterns (patterns_of clauses)
        × IsDescending score_of patterns)
