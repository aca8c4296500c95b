-- ===== src/Query/Eval/Filters.antt =====
-- What `apply_expr_clauses` of src/query/datalog/executor.rs keeps.
use minigraf.Prelude.{
  ◌≡◌, refl, sym, ◌⊎◌, inl, inr, Bool, Option, none, some, List, [], ◌∷◌, Bool-cases,
}
use minigraf.Error.{Result, coded, ok, err}
use minigraf.Prelude.Options.{◌>>=◌}
use minigraf.Error.{qry007}
use mathlib.Core.Path.{subst}
use minigraf.Prelude.Text.{Text}
use minigraf.Prelude.Map.{insert, bytes_key}
use minigraf.Graph.Value.{Value}
use minigraf.Rules.Syntax.{Expr, WhereClause}
use minigraf.Query.Matcher.{UuidCrate, Bindings}
use minigraf.Query.Eval.{
  FloatArithmetic, Predicates, Evaluated, answered, failed, panicked, is_truthy, eval_expr,
}
use minigraf.Query.Eval.Clauses.{kept_row, with_row, unknown_udf, refused_or, apply_expr_clauses}
use minigraf.Query.Eval.Rows.{run_row, run_row-none, run_rows, apply_expr_clauses-run_rows}
use minigraf.Query.Eval.Truthy.{Truthy, is_truthy-Truthy, is_truthy-not-Truthy}
use minigraf.Query.Eval.Unknown.{SomeUnknown, unknown_udf-SomeUnknown, unknown_udf-none}

module _ (uuid : UuidCrate) (f64 : FloatArithmetic) (is_match : Text → Text → Bool) where
  -- The clause keeps the row, with its value bound if it binds one.
  abbrev pub KeepsAs : Predicates → Expr → Option Text → Bindings → Bindings → Type 0
  KeepsAs registry e none b c =
      (v : Value) × (eval_expr uuid f64 is_match e b registry ≡ answered v) × Truthy v × (c ≡ b)
  KeepsAs registry e (some name) b c =
      (v : Value) × (eval_expr uuid f64 is_match e b registry ≡ answered v) × (c ≡ insert name v b)

  -- The clause drops the row: no value, or one that a filter does not pass.
  abbrev pub Drops : Predicates → Expr → Option Text → Bindings → Type 0
  Drops registry e out b =
      (eval_expr uuid f64 is_match e b registry ≡ failed)
      ⊎ ((v : Value) × (out ≡ none)
          × (eval_expr uuid f64 is_match e b registry ≡ answered v)
          × (¬ Truthy v))

  -- A row through the clauses: `none` is a panic, `some none` a row that a clause drops.
  abbrev pub RunsTo : Predicates → List WhereClause → Bindings → Option (Option Bindings) → Type 0
  RunsTo registry [] b r = r ≡ some (some b)
  RunsTo registry (WhereClause.expr e out ∷ clauses) b r =
      ((eval_expr uuid f64 is_match e b registry ≡ panicked) × (r ≡ none))
      ⊎ (Drops registry e out b × (r ≡ some none))
      ⊎ ((c : Bindings) × KeepsAs registry e out b c × RunsTo registry clauses c r)
  RunsTo registry (other ∷ clauses) b r = RunsTo registry clauses b r

  abbrev Runs : Predicates → List WhereClause → Type 0
  Runs registry clauses =
      (c : Bindings)
      → RunsTo registry clauses c (run_row uuid f64 is_match clauses registry (some c))

  filter-RunsTo :
      (registry : Predicates) (e : Expr) (clauses : List WhereClause) (b : Bindings) (v : Value)
      → eval_expr uuid f64 is_match e b registry ≡ answered v
      → Runs registry clauses
      → RunsTo registry
          (WhereClause.expr e none ∷ clauses)
          b
          (kept_row b none (answered v) >>= run_row uuid f64 is_match clauses registry)
  filter-RunsTo registry e clauses b v h ih = elim (Bool-cases (is_truthy v)) [
    | inl t ↦ rw t (inr (inr (b, (v, h, is_truthy-Truthy v t, refl), ih b)))
    | inr t ↦
        rw (t, run_row-none uuid f64 is_match clauses registry)
          (inr (inl (inr (v, refl, h, is_truthy-not-Truthy v t), refl)))
  ]

  step-RunsTo :
      (registry : Predicates) (e : Expr) (out : Option Text) (clauses : List WhereClause)
      → (b : Bindings) (o : Evaluated) → eval_expr uuid f64 is_match e b registry ≡ o
      → Runs registry clauses
      → RunsTo registry
          (WhereClause.expr e out ∷ clauses)
          b
          (kept_row b out o >>= run_row uuid f64 is_match clauses registry)
  step-RunsTo registry e (some name) clauses b (answered v) h ih =
      inr (inr (insert name v b, (v, h, refl), ih (insert name v b)))
  step-RunsTo registry e none clauses b (answered v) h ih =
      filter-RunsTo registry e clauses b v h ih
  step-RunsTo registry e none clauses b failed h ih =
      rw (run_row-none uuid f64 is_match clauses registry) (inr (inl (inl h, refl)))
  step-RunsTo registry e (some name) clauses b failed h ih =
      rw (run_row-none uuid f64 is_match clauses registry) (inr (inl (inl h, refl)))
  step-RunsTo registry e none clauses b panicked h ih = inl (h, refl)
  step-RunsTo registry e (some name) clauses b panicked h ih = inl (h, refl)

  run_row-RunsTo : (registry : Predicates) (clauses : List WhereClause) → Runs registry clauses
  run_row-RunsTo registry [] b = refl
  run_row-RunsTo registry (WhereClause.expr e out ∷ clauses) b =
      step-RunsTo registry e out clauses b (eval_expr uuid f64 is_match e b registry) refl
        (run_row-RunsTo registry clauses)
  run_row-RunsTo registry (other ∷ clauses) b = run_row-RunsTo registry clauses b

  -- The rows that no clause drops, in their order, with what the clauses bind.
  abbrev pub KeptRows : Predicates → List WhereClause → List Bindings → List Bindings → Type 0
  KeptRows registry clauses [] kept = kept ≡ []
  KeptRows registry clauses (b ∷ rows) kept =
      (RunsTo registry clauses b (some none) × KeptRows registry clauses rows kept)
      ⊎ ((c : Bindings) × (rest : List Bindings) × RunsTo registry clauses b (some (some c))
          × (kept ≡ c ∷ rest)
          × KeptRows registry clauses rows rest)

  abbrev pub SomePanics : Predicates → List WhereClause → List Bindings → Type 0
  SomePanics registry clauses [] = ⊥
  SomePanics registry clauses (b ∷ rows) =
      RunsTo registry clauses b none ⊎ SomePanics registry clauses rows

  -- Every row runs to a kept or a dropped one, or one of them panics.
  abbrev Ran : Predicates → List WhereClause → List Bindings → Option (List Bindings) → Type 0
  Ran registry clauses rows none = SomePanics registry clauses rows
  Ran registry clauses rows (some kept) = KeptRows registry clauses rows kept

  row_and_others-Ran :
      (registry : Predicates) (clauses : List WhereClause) (b : Bindings) (rows : List Bindings)
      → (r : Option (Option Bindings)) (o : Option (List Bindings)) → RunsTo registry clauses b r
      → Ran registry clauses rows o
      → Ran registry clauses (b ∷ rows) (r >>= λ row. o >>= λ others. some (with_row row others))
  row_and_others-Ran registry clauses b rows none o first later = inl first
  row_and_others-Ran registry clauses b rows (some r) none first later = inr later
  row_and_others-Ran registry clauses b rows (some none) (some others) first later =
      inl (first, later)
  row_and_others-Ran registry clauses b rows (some (some c)) (some others) first later =
      inr (c, others, first, refl, later)

  run_rows-Ran :
      (registry : Predicates) (clauses : List WhereClause) (rows : List Bindings)
      → Ran registry clauses rows (run_rows uuid f64 is_match clauses registry rows)
  run_rows-Ran registry clauses [] = refl
  run_rows-Ran registry clauses (b ∷ rows) =
      row_and_others-Ran registry clauses b rows
        (run_row uuid f64 is_match clauses registry (some b))
        (run_rows uuid f64 is_match clauses registry rows) (run_row-RunsTo registry clauses b)
        (run_rows-Ran registry clauses rows)

  -- What the call of apply_expr_clauses promises; `none` is a panic.
  abbrev pub IsFiltered :
      Predicates → List WhereClause → List Bindings → Option (Result (List Bindings)) → Type 0
  IsFiltered registry clauses rows (some (err f)) =
      (f ≡ coded qry007) × SomeUnknown registry clauses
  IsFiltered registry clauses rows (some (ok kept)) =
      (¬ SomeUnknown registry clauses) × KeptRows registry clauses rows kept
  IsFiltered registry clauses rows none =
      (¬ SomeUnknown registry clauses) × SomePanics registry clauses rows

  refused_or-IsFiltered :
      (registry : Predicates) (clauses : List WhereClause) (rows : List Bindings)
      → (name : Option Text) (o : Option (List Bindings)) → unknown_udf clauses registry ≡ name
      → Ran registry clauses rows o
      → IsFiltered registry clauses rows (refused_or name o)
  refused_or-IsFiltered registry clauses rows (some name) o h ran =
      (refl, unknown_udf-SomeUnknown registry clauses name h)
  refused_or-IsFiltered registry clauses rows none none h ran =
      (unknown_udf-none registry clauses h, ran)
  refused_or-IsFiltered registry clauses rows none (some kept) h ran =
      (unknown_udf-none registry clauses h, ran)

  -- `apply_expr_clauses` answers QRY-007 exactly if a clause calls, as its outermost operation, a
  -- name that the registry lacks or has as a built-in. Otherwise it takes each row through the
  -- expression clauses in their order: a clause that binds a variable adds its value to the row,
  -- and a filter keeps the row if its value is true or a number other than zero; a clause whose
  -- expression has no value drops the row. The rows that no clause drops are the answer, in their
  -- order, and the call panics exactly if a row reaches an expression that panics.
  pub apply_expr_clauses-IsFiltered :
      (rows : List Bindings) (clauses : List WhereClause) (registry : Predicates)
      → IsFiltered registry clauses rows
          (apply_expr_clauses uuid f64 is_match rows clauses registry)
  apply_expr_clauses-IsFiltered rows clauses registry =
      subst (IsFiltered registry clauses rows)
        (sym (apply_expr_clauses-run_rows uuid f64 is_match rows clauses registry))
        (refused_or-IsFiltered registry clauses rows (unknown_udf clauses registry)
          (run_rows uuid f64 is_match clauses registry rows) refl
          (run_rows-Ran registry clauses rows))
