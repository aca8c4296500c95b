-- ===== src/Query/Optimizer/Safe.antt =====
-- No clause is planned before what it reads is bound (src/query/datalog/optimizer.rs).
use minigraf.Prelude.{[]}
use minigraf.Prelude.Text.{Text}
use minigraf.Rules.Syntax.{WhereClause}
use minigraf.Query.Optimizer.Plan.{Planning, required}
use minigraf.Query.Optimizer.Sets.{Within}
use minigraf.Query.Optimizer.Positions.{needs, all_binds, IsSafe}

-- The invariant of the loop on expressions.
abbrev IsPlanning : Planning → Type 0
IsPlanning s = IsSafe [] s.result × Within s.placeable (all_binds s.result)

-- The clauses of the last loop.
abbrev pub IsNot : WhereClause → Type 0
IsNot c = Within (needs c) (required c)
