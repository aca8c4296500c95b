-- ===== src/Query/Results/AggregateOf.antt =====
-- The value of an aggregate over the rows of a group, as `compute_aggregation` of
-- src/query/datalog/executor.rs is to find it.
use minigraf.Prelude.{
  suc, ◌≡◌, refl, ◌≢◌, ◌⊎◌, inl, inr, true, false, Option, none, some, List, [], ◌∷◌, Bool-cases,
  length,
}
use minigraf.Error.{coded, Result, ok, err}
use mathlib.Core.Path.{subst}
use minigraf.Error.{int029}
use minigraf.Prelude.Text.{Text}
use minigraf.Prelude.Map.{lookup, bytes_key}
use minigraf.Graph.Value.{Value}
use minigraf.Query.Eval.{FloatArithmetic}
use minigraf.Query.Matcher.{Bindings}
use minigraf.Query.Aggregate.Batch.{apply_builtin_aggregate}
use minigraf.Query.Aggregate.Registry.{UdfOps, AggImpl, AggregateDesc, Aggregates, get}
use minigraf.Query.Results.Aggregation.{
  present_value, present, udf_steps, run_udf, run_impl, run_desc,
}

-- The values of a variable: those rows that do not bind it, or bind it to null, give none.
abbrev pub PresentValues : Text → List Bindings → List Value → Type 0
PresentValues var [] values = values ≡ []
PresentValues var (b ∷ rows) values =
    ((lookup var b ≡ none) ⊎ (lookup var b ≡ some Value.null)) × PresentValues var rows values
    ⊎ ((v : Value) × (later : List Value) × (lookup var b ≡ some v)
        × (v ≢ Value.null)
        × (values ≡ v ∷ later)
        × PresentValues var rows later)

present-PresentValues :
    (var : Text) (rows : List Bindings) → PresentValues var rows (present var rows)
unfolding present
present-PresentValues var [] = refl
present-PresentValues var (b ∷ rows) = bound (lookup var b) refl (present-PresentValues var rows)
  where
    Step : Option Value → Type 0
    Step o =
        ((lookup var b ≡ none) ⊎ (lookup var b ≡ some Value.null))
          × PresentValues var rows (present_value o (present var rows))
        ⊎ ((v : Value) × (later : List Value) × (lookup var b ≡ some v)
            × (v ≢ Value.null)
            × (present_value o (present var rows) ≡ v ∷ later)
            × PresentValues var rows later)

    bound :
        (o : Option Value) → lookup var b ≡ o → PresentValues var rows (present var rows) → Step o
    bound none e rest = inl (inl e, rest)
    bound (some Value.null) e rest = inl (inr e, rest)
    bound (some (Value.string s)) e rest = inr (_, _, e, (λ h. cc), refl, rest)
    bound (some (Value.integer s)) e rest = inr (_, _, e, (λ h. cc), refl, rest)
    bound (some (Value.float s)) e rest = inr (_, _, e, (λ h. cc), refl, rest)
    bound (some (Value.boolean s)) e rest = inr (_, _, e, (λ h. cc), refl, rest)
    bound (some (Value.ref s)) e rest = inr (_, _, e, (λ h. cc), refl, rest)
    bound (some (Value.keyword s)) e rest = inr (_, _, e, (λ h. cc), refl, rest)

-- The accumulator after the values, the last one last.
pub data Accumulates {Any : Type 0} (ops : UdfOps Any) : Any → List Value → Any → Type 0 where
  done : (acc : Any) → Accumulates ops acc [] acc
  step :
      (acc : Any) (v : Value) (values : List Value) (end : Any)
      → Accumulates ops (ops.step acc v) values end
      → Accumulates ops acc (v ∷ values) end

-- A user-defined function answers null for no values, and else its final value.
abbrev pub UdfAnswers : {Any : Type 0} → UdfOps Any → List Value → Result Value → Type 0
UdfAnswers {Any} ops [] r = r ≡ ok Value.null
UdfAnswers {Any} ops (v ∷ values) r =
    (end : Any) × Accumulates ops ops.init (v ∷ values) end
    × (r ≡ ok (ops.finalise end (suc (length values))))

module _ {Any : Type 0} (f64 : FloatArithmetic) where
  -- A function without a user-defined implementation is a built-in one.
  abbrev pub ImplAnswers : AggImpl Any → Text → List Value → Result Value → Type 0
  ImplAnswers (AggImpl.udf ops) func values r = UdfAnswers ops values r
  ImplAnswers (AggImpl.builtin ops) func values r = r ≡ apply_builtin_aggregate f64 func values

  abbrev pub Answers : Option (AggregateDesc Any) → Text → List Value → Result Value → Type 0
  Answers none func values r = r ≡ err (coded int029)
  Answers (some desc) func values r =
      (desc.is_builtin ≡ true) × (r ≡ apply_builtin_aggregate f64 func values)
      ⊎ (desc.is_builtin ≡ false) × ImplAnswers desc.impl_ func values r

  -- The aggregate answers its function over the values that are present.
  abbrev pub AggregateOf : Aggregates Any → Text → Text → List Bindings → Result Value → Type 0
  AggregateOf registry func var rows r =
      (values : List Value) × PresentValues var rows values
      × Answers (get registry func) func values r

  udf_steps-Accumulates :
      (ops : UdfOps Any) (acc : Any) (values : List Value)
      → Accumulates ops acc values (udf_steps f64 ops acc values)
  unfolding udf_steps
  udf_steps-Accumulates ops acc [] = done acc
  udf_steps-Accumulates ops acc (v ∷ values) =
      step acc v values _ (udf_steps-Accumulates ops (ops.step acc v) values)

  run_udf-UdfAnswers :
      (ops : UdfOps Any) (values : List Value) → UdfAnswers ops values (ok (run_udf f64 ops values))
  run_udf-UdfAnswers ops [] = refl
  run_udf-UdfAnswers ops (v ∷ values) = (_, udf_steps-Accumulates ops ops.init (v ∷ values), refl)

  run_impl-ImplAnswers :
      (impl : AggImpl Any) (func : Text) (values : List Value)
      → ImplAnswers impl func values (run_impl f64 impl func values)
  run_impl-ImplAnswers (AggImpl.udf ops) func values = run_udf-UdfAnswers ops values
  run_impl-ImplAnswers (AggImpl.builtin ops) func values = refl

  run_desc-Answers :
      (desc : Option (AggregateDesc Any)) (func : Text) (values : List Value)
      → Answers desc func values (run_desc f64 desc func values)
  run_desc-Answers none func values = refl
  run_desc-Answers (some desc) func values = elim (Bool-cases desc.is_builtin) [
    | inl e ↦ rw e (inl (refl, refl))
    | inr e ↦ rw e (inr (refl, run_impl-ImplAnswers desc.impl_ func values))
  ]

  pub run_desc-AggregateOf :
      (registry : Aggregates Any) (func var : Text) (rows : List Bindings) (r : Result Value)
      → run_desc f64 (get registry func) func (present var rows) ≡ r
      → AggregateOf registry func var rows r
  run_desc-AggregateOf registry func var rows r e = (
    present var rows,
    present-PresentValues var rows,
    subst (Answers (get registry func) func (present var rows)) e
        (run_desc-Answers (get registry func) func (present var rows)),
  )
