-- ===== src/Query/Eval/Rows.antt =====
-- The clauses of `apply_expr_clauses` run row by row (src/query/datalog/executor.rs).
use minigraf.Prelude.{◌≡◌, refl, sym, ap, ap₂, ◌∙◌, Bool, Option, none, some, List, [], ◌∷◌}
use minigraf.Prelude.Options.{◌>>=◌, bind-agree}
use minigraf.Prelude.Text.{Text}
use minigraf.Rules.Syntax.{Expr, WhereClause}
use minigraf.Query.Matcher.{UuidCrate, Bindings}
use minigraf.Query.Eval.{FloatArithmetic, Predicates, eval_expr}
use minigraf.Query.Eval.Clauses.{
  kept_row, with_row, filter_rows, filter_each, unknown_udf, refused_or, apply_expr_clauses,
}

module _ (uuid : UuidCrate) (f64 : FloatArithmetic) (is_match : Text → Text → Bool) where
  -- One row through all clauses, until one drops it.
  abbrev pub run_row : List WhereClause → Predicates → Option Bindings → Option (Option Bindings)
  run_row [] registry row = some row
  run_row clauses registry none = some none
  run_row (WhereClause.expr e out ∷ clauses) registry (some b) =
      kept_row b out (eval_expr uuid f64 is_match e b registry) >>= run_row clauses registry
  run_row (other ∷ clauses) registry (some b) = run_row clauses registry (some b)

  -- The rows one after the other.
  abbrev pub run_rows : List WhereClause → Predicates → List Bindings → Option (List Bindings)
  run_rows clauses registry [] = some []
  run_rows clauses registry (b ∷ rows) = do
    row ← run_row clauses registry (some b)
    others ← run_rows clauses registry rows
    some (with_row row others)

  pub run_row-none :
      (clauses : List WhereClause) (registry : Predicates)
      → run_row clauses registry none ≡ some none
  run_row-none [] registry = refl
  run_row-none (c ∷ clauses) registry = refl

  run_rows-nil :
      (registry : Predicates) (rows : List Bindings) → run_rows [] registry rows ≡ some rows
  run_rows-nil registry [] = refl
  run_rows-nil registry (b ∷ rows) =
      ap (λ o. o >>= λ others. some (b ∷ others)) (run_rows-nil registry rows)

  -- The rows of a first clause, and the other clauses on what it keeps.
  run_rows-first :
      (e : Expr) (out : Option Text) (clauses : List WhereClause) (registry : Predicates)
      → (rows : List Bindings)
      → run_rows (WhereClause.expr e out ∷ clauses) registry rows
        ≡ (filter_rows uuid f64 is_match e out registry rows >>= run_rows clauses registry)
  unfolding filter_rows
  run_rows-first e out clauses registry [] = refl
  run_rows-first e out clauses registry (b ∷ rows) =
      one (kept_row b out (eval_expr uuid f64 is_match e b registry))
        (filter_rows uuid f64 is_match e out registry rows)
        (run_rows-first e out clauses registry rows)
    where
      later : Option (List Bindings)
      later = run_rows (WhereClause.expr e out ∷ clauses) registry rows

      both : Option (Option Bindings) → Option (List Bindings) → Type 0
      both row o =
          (row >>= run_row clauses registry >>= λ r. later >>= λ others. some (with_row r others))
          ≡ (row >>= (λ r. o >>= λ others. some (with_row r others)) >>= run_rows clauses registry)

      last : (l : Option (List Bindings)) → (l >>= λ x. some x) ≡ l
      last none = refl
      last (some x) = refl

      swapped :
          (first : Option (Option Bindings)) (o : Option (List Bindings))
          → later ≡ none
          → (first >>= λ r. later >>= λ others. some (with_row r others)) ≡ none
      swapped none o ih = refl
      swapped (some r) o ih = rw ih refl

      one :
          (row : Option (Option Bindings)) (o : Option (List Bindings))
          → later ≡ (o >>= run_rows clauses registry)
          → both row o
      one none o ih = refl
      one (some none) none ih = rw (run_row-none clauses registry, ih) refl
      one (some none) (some others) ih = rw (run_row-none clauses registry) (last later ∙ ih)
      one (some (some c)) none ih = swapped (run_row clauses registry (some c)) none ih
      one (some (some c)) (some others) ih = rw ih refl

  run_rows-skip :
      (c : WhereClause) (clauses : List WhereClause) (registry : Predicates)
      → (rows : List Bindings)
      → ((b : Bindings)
          → run_row (c ∷ clauses) registry (some b) ≡ run_row clauses registry (some b))
      → run_rows (c ∷ clauses) registry rows ≡ run_rows clauses registry rows
  run_rows-skip c clauses registry [] same = refl
  run_rows-skip c clauses registry (b ∷ rows) same =
      ap₂ (λ x y. x >>= λ row. y >>= λ others. some (with_row row others)) (same b)
        (run_rows-skip c clauses registry rows same)

  -- Clause by clause or row by row, the same rows are kept, in the same order.
  filter_each-run_rows :
      (clauses : List WhereClause) (registry : Predicates) (rows : List Bindings)
      → filter_each uuid f64 is_match clauses registry rows ≡ run_rows clauses registry rows
  unfolding filter_each
  filter_each-run_rows [] registry rows = sym (run_rows-nil registry rows)
  filter_each-run_rows (WhereClause.expr e out ∷ clauses) registry rows =
      bind-agree (filter_rows uuid f64 is_match e out registry rows) _ _
        (filter_each-run_rows clauses registry)
      ∙ sym (run_rows-first e out clauses registry rows)
  filter_each-run_rows (other ∷ clauses) registry rows =
      filter_each-run_rows clauses registry rows
      ∙ sym (run_rows-skip other clauses registry rows (λ b. refl))

  -- `apply_expr_clauses` refuses clauses that call, at their outermost, a predicate that is not
  -- registered, and otherwise takes each row through all clauses: the rows that no clause drops
  -- are kept, in their order, with what the clauses bind; a panic of any row is one of the call.
  pub apply_expr_clauses-run_rows :
      (rows : List Bindings) (clauses : List WhereClause) (registry : Predicates)
      → apply_expr_clauses uuid f64 is_match rows clauses registry
        ≡ refused_or (unknown_udf clauses registry) (run_rows clauses registry rows)
  unfolding apply_expr_clauses
  apply_expr_clauses-run_rows rows clauses registry =
      ap (refused_or (unknown_udf clauses registry)) (filter_each-run_rows clauses registry rows)
