-- ===== src/Query/Optimizer/Plan.antt =====
-- `plan` of src/query/datalog/optimizer.rs, and the parts of it.
use minigraf.Prelude.{
  ℕ, zero, suc, Bool, true, false, not, ◌&&◌, Option, none, some, List, [], ◌∷◌, ◌++◌, map, leb,
  if◌then◌else◌, length, keep, any,
}
use mathlib.Core.Option
use minigraf.Prelude.Text.{Text, codes, bytes_eq}
use minigraf.Rules.Syntax.{Pattern, Expr, WhereClause}
use minigraf.Query.Matcher.{starts_with}
use minigraf.Query.Matcher.Join.{IndexHint}
use minigraf.Query.Optimizer.{
  clause_cost, clause_ref_vars, expr_vars, listed, pattern_bound_vars, select_index,
  selectivity_score,
}

-- `slice::sort_by_key` with `Reverse`: stable, the greatest key first.
module _ {A : Type 0} (key : A → ℕ) where
  unfoldable pub insert_by : A → List A → List A
  insert_by x [] = x ∷ []
  insert_by x (y ∷ ys) = if leb (key y) (key x) then x ∷ y ∷ ys else y ∷ insert_by x ys

  unfoldable pub sort_by_reverse : List A → List A
  sort_by_reverse [] = []
  sort_by_reverse (x ∷ xs) = insert_by x (sort_by_reverse xs)

-- `Vec::insert`; the positions of the plan are never past the end.
unfoldable pub insert_at {ℓ} : {A : Type ℓ} → ℕ → A → List A → List A
insert_at zero x ys = x ∷ ys
insert_at (suc n) x [] = x ∷ []
insert_at (suc n) x (y ∷ ys) = y ∷ insert_at n x ys

-- `HashSet::contains` and `HashSet::is_subset`, on lists.
abbrev pub has_var : List Text → Text → Bool
has_var vars v = any (bytes_eq v) vars

unfoldable pub is_subset : List Text → List Text → Bool
is_subset [] bound = true
is_subset (v ∷ vars) bound = has_var bound v && is_subset vars bound

-- An entry of the plan: a clause, and the hint of a pattern.
abbrev pub Planned : Type 0
Planned = WhereClause × Option IndexHint

unfoldable pub pattern_vars : WhereClause → Option (List Text)
pattern_vars (WhereClause.pattern p) = some (pattern_bound_vars p)
pattern_vars other = none

abbrev pub next_bound : List Text → Option (List Text) → List Text
next_bound bound none = bound
next_bound bound (some new) = bound ++ new

abbrev pub binds_here : List Text → List Text → Option (List Text) → Bool
binds_here vars bound none = false
binds_here vars bound (some new) = is_subset vars bound

-- The position after the first pattern that, with those before it, binds the variables.
unfoldable pub bound_pos : List Text → List Text → List Planned → Option ℕ
bound_pos vars bound [] = none
bound_pos vars bound (entry ∷ result) =
    let more = next_bound bound (pattern_vars entry.0) in
    let later = Option.map suc (bound_pos vars more result) in
    if binds_here vars more (pattern_vars entry.0) then some 1 else later

-- The three kinds of clauses that are planned.
unfoldable pub patterns_of : List WhereClause → List (Pattern × IndexHint)
patterns_of [] = []
patterns_of (WhereClause.pattern p ∷ clauses) = (p, select_index p) ∷ patterns_of clauses
patterns_of (other ∷ clauses) = patterns_of clauses

unfoldable pub exprs_of : List WhereClause → List (Expr × Option Text)
exprs_of [] = []
exprs_of (WhereClause.expr e binding ∷ clauses) = (e, binding) ∷ exprs_of clauses
exprs_of (other ∷ clauses) = exprs_of clauses

unfoldable pub nots_of : List WhereClause → List WhereClause
nots_of [] = []
nots_of (WhereClause.not_ body ∷ clauses) = WhereClause.not_ body ∷ nots_of clauses
nots_of (WhereClause.not_join join_vars body ∷ clauses) =
    WhereClause.not_join join_vars body ∷ nots_of clauses
nots_of (other ∷ clauses) = nots_of clauses

-- The locals of `plan`.
pub record Planning : Type 0 where
  pub result : List Planned
  pub deferred : List WhereClause
  pub placeable : List Text

abbrev pub hinted : Pattern × IndexHint → Planned
hinted (p, hint) = (WhereClause.pattern p, some hint)

-- The variables that the patterns of a plan bind.
unfoldable pub all_pattern_vars : List (Pattern × IndexHint) → List Text
all_pattern_vars [] = []
all_pattern_vars ((p, hint) ∷ patterns) = pattern_bound_vars p ++ all_pattern_vars patterns

-- The plan of the sorted patterns alone.
unfoldable pub start : List (Pattern × IndexHint) → Planning
start patterns = record {
  result = map hinted patterns;
  deferred = [];
  placeable = all_pattern_vars patterns;
}

abbrev pub pos_or : ℕ → Option ℕ → ℕ
pos_or other none = other
pos_or other (some pos) = pos

unfoldable pub expr_pos : List Text → List Planned → ℕ
expr_pos [] result = length result
expr_pos (v ∷ vars) result = pos_or (length result) (bound_pos (v ∷ vars) [] result)

-- One round of the loop on expressions.
unfoldable pub place_expr : Expr × Option Text → Planning → Planning
place_expr (e, binding) s =
    if is_subset (expr_vars e) s.placeable
    then record {
      result =
          insert_at (expr_pos (expr_vars e) s.result) (WhereClause.expr e binding, none) s.result;
      deferred = s.deferred;
      placeable = s.placeable ++ listed binding;
    }
    else record s { deferred = s.deferred ++ (WhereClause.expr e binding ∷ []) }

unfoldable pub place_exprs : List (Expr × Option Text) → Planning → Planning
place_exprs [] s = s
place_exprs (e ∷ exprs) s = place_exprs exprs (place_expr e s)

abbrev pub is_named : Text → Bool
is_named v = not (starts_with (codes "?_") v)

unfoldable pub required : WhereClause → List Text
required (WhereClause.not_ body) = keep is_named (clause_ref_vars body)
required (WhereClause.not_join join_vars body) = keep is_named join_vars
required other = []

abbrev pub place_at : WhereClause → Planning → Option ℕ → Planning
place_at c s (some pos) = record s { result = insert_at pos (c, none) s.result }
place_at c s none = record s { deferred = s.deferred ++ (c ∷ []) }

abbrev pub place_needing : WhereClause → Planning → List Text → Planning
place_needing c s [] = place_at c s (some 0)
place_needing c s (v ∷ vars) = place_at c s (bound_pos (v ∷ vars) [] s.result)

-- One round of the loop on negations.
unfoldable pub place_not : WhereClause → Planning → Planning
place_not c s = place_needing c s (required c)

unfoldable pub place_nots : List WhereClause → Planning → Planning
place_nots [] s = s
place_nots (c ∷ nots) s = place_nots nots (place_not c s)

abbrev pub score_of : Pattern × IndexHint → ℕ
score_of (p, hint) = selectivity_score p

unfoldable pub planned : List WhereClause → Planning
planned clauses =
    place_nots (sort_by_reverse clause_cost (nots_of clauses))
      (place_exprs (exprs_of clauses) (start (sort_by_reverse score_of (patterns_of clauses))))

-- `plan`; it does not read the indexes.
unfoldable pub plan : List WhereClause → List Planned × List WhereClause
plan clauses = ((planned clauses).result, (planned clauses).deferred)
