-- ===== src/Query/Results/GroupRow.antt =====
-- The row that `compute_aggregation` makes of a group (src/query/datalog/executor.rs).
use mathlib.Core.Path.{subst}
use minigraf.Query.Results.AggregateOf.{AggregateOf, run_desc-AggregateOf}
use minigraf.Prelude.{
  ◌≢◌, ◌≤◌, ℕ, suc, ◌≡◌, refl, sym, ap, ◌∙◌, ◌⊎◌, inl, inr, true, Option, none, some, List, [], ◌∷◌,
  arith, Bool-cases,
}
use minigraf.Error.{Failure, coded, Result, ok, err}
use minigraf.Error.{int042, ok_injective}
use minigraf.Prelude.Options.{none-ne-some, some_injective}
use minigraf.Prelude.Text.{Text, bytes_eq_refl}
use minigraf.Prelude.Map.{lookup, insert, lookup-insert, bytes_key}
use minigraf.Graph.Value.{Value}
use minigraf.Query.Eval.{FloatArithmetic}
use minigraf.Query.Matcher.{Bindings}
use minigraf.Query.Aggregate.Registry.{Aggregates, get}
use minigraf.Query.Results.Specs.{FindSpec, agg_key, agg_key_injective}
use minigraf.Query.Results.Aggregation.{
  present, is_empty_group, stored_or_skipped, run_desc, aggregate_row,
}
use minigraf.Query.Results.Written.{lookup-insert_other}

pub no_failure : {A : Type 0} {a : A} {f : Failure} → ¬ (ok a ≡ err f)
no_failure h = cc

pub err_injective : {A : Type 0} {f g : Failure} → ◌≡◌ {A = Result A} (err f) (err g) → f ≡ g
err_injective h = cc

stored_or_skipped-err :
    (g f : Failure) (next : Value → Result (Option Bindings))
    → stored_or_skipped (err g) next ≡ err f
    → g ≡ f
stored_or_skipped-err g f next k = elim (Bool-cases (is_empty_group g)) [
  | inl e ↦ absurd (no_failure (rw e at k))
  | inr e ↦ err_injective (rw e at k)
]

stored_or_skipped-reported :
    (g f : Failure) (next : Value → Result (Option Bindings))
    → stored_or_skipped (err g) next ≡ err f
    → f ≢ coded int042
stored_or_skipped-reported g f next k e =
    no_failure (subst (λ x. stored_or_skipped (err x) next ≡ err f) same k)
  where
    same : g ≡ coded int042
    same = stored_or_skipped-err g f next k ∙ e

empty_group : (e : Failure) → is_empty_group e ≡ true → e ≡ coded int042
empty_group (coded int042) h = refl
empty_group e h = cc

-- The values under other names than those of the aggregates from the i-th find spec on stay.
abbrev pub Untouched : ℕ → Bindings → Option Bindings → Type 0
Untouched i before none = Unit {0}
Untouched i before (some row) =
    (x : Text) → ((j : ℕ) → i ≤ j → ¬ (agg_key j ≡ x)) → lookup x row ≡ lookup x before

Untouched-later :
    (i : ℕ) (v : Value) (before : Bindings) (answer : Option Bindings)
    → Untouched (suc i) (insert (agg_key i) v before) answer
    → Untouched i before answer
Untouched-later i v before none h = tt
Untouched-later i v before (some row) h = λ x other.
    h x (λ j later. other j (omega arith))
    ∙ lookup-insert_other (agg_key i) x v before (other i (omega arith))

Untouched-less :
    (i : ℕ) (before : Bindings) (answer : Option Bindings)
    → Untouched (suc i) before answer
    → Untouched i before answer
Untouched-less i before none h = tt
Untouched-less i before (some row) h = λ x other. h x (λ j later. other j (omega arith))

earlier_key : (i j : ℕ) → suc i ≤ j → ¬ (agg_key j ≡ agg_key i)
earlier_key i j later e = absurd (omega (arith, later, agg_key_injective j i e))

module _ {Any : Type 0} (f64 : FloatArithmetic) (registry : Aggregates Any) where
  abbrev aggregate_of : Text → Text → List Bindings → Result Value
  aggregate_of func var rows = run_desc f64 (get registry func) func (present var rows)

  -- The row holds, for each aggregate from the i-th find spec on, its value over the group.
  abbrev pub HasAggregates : List Bindings → ℕ → List FindSpec → Bindings → Type 0
  HasAggregates rows i [] row = Unit {0}
  HasAggregates rows i (FindSpec.aggregate func var ∷ specs) row =
      ((v : Value) × AggregateOf f64 registry func var rows (ok v)
        × (lookup (agg_key i) row ≡ some v))
      × HasAggregates rows (suc i) specs row
  HasAggregates rows i (spec ∷ specs) row = HasAggregates rows (suc i) specs row

  -- An aggregate of the find specs has no value over the group.
  abbrev pub LacksValue : List Bindings → List FindSpec → Type 0
  LacksValue rows [] = ⊥
  LacksValue rows (FindSpec.aggregate func var ∷ specs) =
      AggregateOf f64 registry func var rows (err (coded int042)) ⊎ LacksValue rows specs
  LacksValue rows (spec ∷ specs) = LacksValue rows specs

  abbrev pub IsGroupAnswer : List Bindings → ℕ → List FindSpec → Option Bindings → Type 0
  IsGroupAnswer rows i specs none = LacksValue rows specs
  IsGroupAnswer rows i specs (some row) = HasAggregates rows i specs row

  answered_value :
      (rows : List Bindings) (func var : Text) (i : ℕ) (specs : List FindSpec) (binding : Bindings)
      (answer : Option Bindings) (v : Value)
      → aggregate_of func var rows ≡ ok v
      → IsGroupAnswer rows (suc i) specs answer
        × Untouched (suc i) (insert (agg_key i) v binding) answer
      → IsGroupAnswer rows i (FindSpec.aggregate func var ∷ specs) answer
        × Untouched i binding answer
  answered_value rows func var i specs binding none v e (lacks, kept) = (inr lacks, tt)
  answered_value rows func var i specs binding (some row) v e (has, kept) = (
    (
      (
        v,
        run_desc-AggregateOf f64 registry func var rows (ok v) e,
        kept (agg_key i) (earlier_key i)
            ∙ lookup-insert (agg_key i) (agg_key i) v binding
            ∙ rw (bytes_eq_refl (agg_key i)) refl,
      ),
      has,
    ),
    Untouched-later i v binding (some row) kept,
  )

  skipped :
      (rows : List Bindings) (func var : Text) (i : ℕ) (specs : List FindSpec) (binding : Bindings)
      (answer : Option Bindings) (f : Failure) (next : Value → Result (Option Bindings))
      → aggregate_of func var rows ≡ err f
      → stored_or_skipped (err f) next ≡ ok answer
      → IsGroupAnswer rows i (FindSpec.aggregate func var ∷ specs) answer
        × Untouched i binding answer
  skipped rows func var i specs binding answer f next e h = elim (Bool-cases (is_empty_group f)) [
    | inl empty ↦ none_answer answer (ok_injective (rw empty at h)) (empty_group f empty)
    | inr other ↦ absurd (failed (rw other at h))
  ]
    where
      failed : err f ≡ ok answer → ⊥
      failed k = cc

      none_answer :
          (a : Option Bindings)
          → none ≡ a
          → f ≡ coded int042
          → IsGroupAnswer rows i (FindSpec.aggregate func var ∷ specs) a × Untouched i binding a
      none_answer none k code =
          (inl (run_desc-AggregateOf f64 registry func var rows _ (e ∙ ap err code)), tt)
      none_answer (some row) k code = absurd (none-ne-some k)

  pub aggregate_row-IsGroupAnswer :
      (rows : List Bindings) (i : ℕ) (specs : List FindSpec) (binding : Bindings)
      (answer : Option Bindings)
      → aggregate_row f64 registry rows i specs binding ≡ ok answer
      → IsGroupAnswer rows i specs answer × Untouched i binding answer
  unfolding aggregate_row
  aggregate_row-IsGroupAnswer rows i [] binding none h = cc
  aggregate_row-IsGroupAnswer rows i [] binding (some row) h =
      (tt, λ x other. ap (lookup x) (sym (some_injective (ok_injective h))))
  aggregate_row-IsGroupAnswer rows i (FindSpec.aggregate func var ∷ specs) binding answer h =
      found (aggregate_of func var rows) refl h
        λ v. aggregate_row-IsGroupAnswer rows (suc i) specs (insert (agg_key i) v binding) answer
    where
      found :
          (r : Result Value)
          → aggregate_of func var rows ≡ r
          → stored_or_skipped r
              (λ v. aggregate_row f64 registry rows (suc i) specs (insert (agg_key i) v binding))
            ≡ ok answer
          → ((v : Value)
              → aggregate_row f64 registry rows (suc i) specs (insert (agg_key i) v binding)
                ≡ ok answer
              → IsGroupAnswer rows (suc i) specs answer
                × Untouched (suc i) (insert (agg_key i) v binding) answer)
          → IsGroupAnswer rows i (FindSpec.aggregate func var ∷ specs) answer
            × Untouched i binding answer
      found (ok v) e k rest = answered_value rows func var i specs binding answer v e (rest v k)
      found (err f) e k rest =
          skipped rows func var i specs binding answer f
            (λ v. aggregate_row f64 registry rows (suc i) specs (insert (agg_key i) v binding)) e k
  aggregate_row-IsGroupAnswer rows i (FindSpec.variable v ∷ specs) binding none h =
      (aggregate_row-IsGroupAnswer rows (suc i) specs binding none h)
  aggregate_row-IsGroupAnswer rows i (FindSpec.variable v ∷ specs) binding (some row) h =
      let (has, kept) = aggregate_row-IsGroupAnswer rows (suc i) specs binding (some row) h in
      (has, Untouched-less i binding (some row) kept)
  aggregate_row-IsGroupAnswer rows i (FindSpec.window ws ∷ specs) binding none h =
      (aggregate_row-IsGroupAnswer rows (suc i) specs binding none h)
  aggregate_row-IsGroupAnswer rows i (FindSpec.window ws ∷ specs) binding (some row) h =
      let (has, kept) = aggregate_row-IsGroupAnswer rows (suc i) specs binding (some row) h in
      (has, Untouched-less i binding (some row) kept)

  -- An aggregate of the find specs fails over the group with the error.
  abbrev pub FailsWith : Failure → List Bindings → List FindSpec → Type 0
  FailsWith f rows [] = ⊥
  FailsWith f rows (FindSpec.aggregate func var ∷ specs) =
      AggregateOf f64 registry func var rows (err f) × (f ≢ coded int042) ⊎ FailsWith f rows specs
  FailsWith f rows (spec ∷ specs) = FailsWith f rows specs

  pub aggregate_row-FailsWith :
      (rows : List Bindings) (i : ℕ) (specs : List FindSpec) (binding : Bindings) (f : Failure)
      → aggregate_row f64 registry rows i specs binding ≡ err f
      → FailsWith f rows specs
  unfolding aggregate_row
  aggregate_row-FailsWith rows i [] binding f h = cc
  aggregate_row-FailsWith rows i (FindSpec.aggregate func var ∷ specs) binding f h =
      found (aggregate_of func var rows) refl h
        λ v. aggregate_row-FailsWith rows (suc i) specs (insert (agg_key i) v binding) f
    where
      found :
          (r : Result Value)
          → aggregate_of func var rows ≡ r
          → stored_or_skipped r
              (λ v. aggregate_row f64 registry rows (suc i) specs (insert (agg_key i) v binding))
            ≡ err f
          → ((v : Value)
              → aggregate_row f64 registry rows (suc i) specs (insert (agg_key i) v binding) ≡ err f
              → FailsWith f rows specs)
          → AggregateOf f64 registry func var rows (err f) × (f ≢ coded int042)
            ⊎ FailsWith f rows specs
      found (ok v) e k rest = inr (rest v k)
      found (err g) e k rest =
          let next = λ (v : Value).
            aggregate_row f64 registry rows (suc i) specs (insert (agg_key i) v binding) in
          inl (
            run_desc-AggregateOf f64 registry func var rows (err f)
                (e ∙ ap err (stored_or_skipped-err g f next k)),
            stored_or_skipped-reported g f next k,
          )
  aggregate_row-FailsWith rows i (FindSpec.variable v ∷ specs) binding f h =
      aggregate_row-FailsWith rows (suc i) specs binding f h
  aggregate_row-FailsWith rows i (FindSpec.window ws ∷ specs) binding f h =
      aggregate_row-FailsWith rows (suc i) specs binding f h
