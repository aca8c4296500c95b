-- ===== src/Query/Optimizer/Once.antt =====
-- Each clause is planned or deferred once (src/query/datalog/optimizer.rs).
use minigraf.Prelude.{
  ℕ, zero, suc, ◌≡◌, refl, sym, ap, inl, inr, Bool, true, false, Option, none, some, List, [], ◌∷◌,
  ◌++◌, map, append-nil, append_assoc, Bool-cases, keep,
}
use mathlib.Core.Path.{subst}
use mathlib.Core.List.{Perm, perm_middle}
use mathlib.Core.List.Perm
use minigraf.Prelude.Text.{Text}
use minigraf.Rules.Syntax.{Pattern, Expr, WhereClause}
use minigraf.Query.Matcher.Join.{IndexHint}
use minigraf.Query.Optimizer.Sort.{sort_by_reverse-Perm}
use minigraf.Query.Optimizer.{clause_cost, expr_vars, listed}
use minigraf.Query.Optimizer.Plan.{
  sort_by_reverse, insert_at, is_subset, Planned, bound_pos, patterns_of, exprs_of, nots_of,
  Planning, start, place_expr, place_exprs, required, place_at, place_needing, place_not,
  place_nots, score_of, planned,
}

-- The clauses of a plan, with those that are deferred.
abbrev items : Planning → List WhereClause
items s = map (λ entry. entry.0) s.result ++ s.deferred

insert_at-Perm :
    (n : ℕ) (c : WhereClause) (hint : Option IndexHint) (result : List Planned)
    → Perm
        (map (λ entry. entry.0) (insert_at n (c, hint) result))
        (c ∷ map (λ entry. entry.0) result)
unfolding insert_at
insert_at-Perm zero c hint result = Perm.refl _
insert_at-Perm (suc n) c hint [] = Perm.refl _
insert_at-Perm (suc n) c hint (entry ∷ result) =
    Perm.trans (Perm.cons entry.0 (insert_at-Perm n c hint result))
      (Perm.swap c entry.0 (map (λ e. e.0) result))

inserted-Perm :
    (n : ℕ) (c : WhereClause) (s : Planning) (more : List Text)
    → Perm
        (items (record s { result = insert_at n (c, none) s.result; placeable = more }))
        (c ∷ items s)
inserted-Perm n c s more = Perm.append_right s.deferred (insert_at-Perm n c none s.result)

deferred-Perm :
    (c : WhereClause) (s : Planning)
    → Perm (items (record s { deferred = s.deferred ++ (c ∷ []) })) (c ∷ items s)
deferred-Perm c s = rw (sym (append_assoc clauses s.deferred (c ∷ []))) (
    subst (λ r. Perm ((clauses ++ s.deferred) ++ (c ∷ [])) (c ∷ r))
      (append-nil (clauses ++ s.deferred)) (perm_middle (clauses ++ s.deferred) []))
  where
    clauses : List WhereClause
    clauses = map (λ entry. entry.0) s.result

clause_of : Expr × Option Text → WhereClause
clause_of (e, binding) = WhereClause.expr e binding

place_expr-Perm :
    (e : Expr × Option Text) (s : Planning) → Perm (items (place_expr e s)) (clause_of e ∷ items s)
unfolding place_expr clause_of
place_expr-Perm (e, binding) s = elim (Bool-cases (is_subset (expr_vars e) s.placeable)) [
  | inl bound ↦
      rw bound (inserted-Perm _ (WhereClause.expr e binding) s (s.placeable ++ listed binding))
  | inr unbound ↦ rw unbound (deferred-Perm (WhereClause.expr e binding) s)
]

place_not-Perm : (c : WhereClause) (s : Planning) → Perm (items (place_not c s)) (c ∷ items s)
unfolding place_not
place_not-Perm c s = needing (required c)
  where
    placed : (o : Option ℕ) → Perm (items (place_at c s o)) (c ∷ items s)
    placed none = deferred-Perm c s
    placed (some pos) = inserted-Perm pos c s s.placeable

    needing : (vars : List Text) → Perm (items (place_needing c s vars)) (c ∷ items s)
    needing [] = placed (some 0)
    needing (x ∷ vars) = placed (bound_pos (x ∷ vars) [] s.result)

-- A round that adds one clause, on a list of them.
rounds-Perm :
    (c : WhereClause) (cs now later final : List WhereClause)
    → Perm later (c ∷ now)
    → Perm final (cs ++ later)
    → Perm final (c ∷ (cs ++ now))
rounds-Perm c cs now later final one rest =
    Perm.trans rest (Perm.trans (Perm.append_left cs one) (perm_middle cs now))

place_exprs-Perm :
    (exprs : List (Expr × Option Text)) (s : Planning)
    → Perm (items (place_exprs exprs s)) (map clause_of exprs ++ items s)
unfolding place_exprs
place_exprs-Perm [] s = Perm.refl (items s)
place_exprs-Perm (e ∷ exprs) s =
    rounds-Perm (clause_of e) (map clause_of exprs) (items s) (items (place_expr e s)) _
      (place_expr-Perm e s) (place_exprs-Perm exprs (place_expr e s))

place_nots-Perm :
    (nots : List WhereClause) (s : Planning) → Perm (items (place_nots nots s)) (nots ++ items s)
unfolding place_nots
place_nots-Perm [] s = Perm.refl (items s)
place_nots-Perm (c ∷ nots) s =
    rounds-Perm c nots (items s) (items (place_not c s)) _ (place_not-Perm c s)
      (place_nots-Perm nots (place_not c s))

-- The clauses that `plan` is meant for.
abbrev pub is_plannable : WhereClause → Bool
is_plannable (WhereClause.pattern p) = true
is_plannable (WhereClause.expr e binding) = true
is_plannable (WhereClause.not_ body) = true
is_plannable (WhereClause.not_join join_vars body) = true
is_plannable other = false

pattern_clause : Pattern × IndexHint → WhereClause
pattern_clause (p, hint) = WhereClause.pattern p

-- The three kinds, put together.
abbrev kinds : List WhereClause → List WhereClause
kinds clauses =
    nots_of clauses
    ++ (map clause_of (exprs_of clauses) ++ map pattern_clause (patterns_of clauses))

kinds-Perm : (clauses : List WhereClause) → Perm (kinds clauses) (keep is_plannable clauses)
unfolding nots_of exprs_of patterns_of clause_of pattern_clause
kinds-Perm [] = Perm.refl []
kinds-Perm (WhereClause.not_ body ∷ clauses) = Perm.cons _ (kinds-Perm clauses)
kinds-Perm (WhereClause.not_join join_vars body ∷ clauses) = Perm.cons _ (kinds-Perm clauses)
kinds-Perm (WhereClause.expr e binding ∷ clauses) =
    Perm.trans (perm_middle (nots_of clauses) _) (Perm.cons _ (kinds-Perm clauses))
kinds-Perm (WhereClause.pattern p ∷ clauses) =
    Perm.trans
      (Perm.trans
        (Perm.append_left (nots_of clauses) (perm_middle (map clause_of (exprs_of clauses)) _))
        (perm_middle (nots_of clauses) _))
      (Perm.cons _ (kinds-Perm clauses))
kinds-Perm (WhereClause.rule_invocation predicate args ∷ clauses) = kinds-Perm clauses
kinds-Perm (WhereClause.or_ bs ∷ clauses) = kinds-Perm clauses
kinds-Perm (WhereClause.or_join join_vars bs ∷ clauses) = kinds-Perm clauses

start-Perm :
    (patterns : List (Pattern × IndexHint)) → items (start patterns) ≡ map pattern_clause patterns
unfolding start pattern_clause
start-Perm [] = refl
start-Perm ((p, hint) ∷ patterns) = ap (λ r. WhereClause.pattern p ∷ r) (start-Perm patterns)

pub planned-Perm :
    (clauses : List WhereClause) → Perm (items (planned clauses)) (keep is_plannable clauses)
unfolding planned
planned-Perm clauses =
    Perm.trans
      (Perm.trans (place_nots-Perm (sort_by_reverse clause_cost (nots_of clauses)) _) (
        Perm.append (sort_by_reverse-Perm clause_cost (nots_of clauses)) (
          Perm.trans (place_exprs-Perm (exprs_of clauses) _) (
            Perm.append_left (map clause_of (exprs_of clauses)) (
              rw (start-Perm (sort_by_reverse score_of (patterns_of clauses)))
                (Perm.map pattern_clause (sort_by_reverse-Perm score_of (patterns_of clauses))))))))
      (kinds-Perm clauses)
