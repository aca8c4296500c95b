-- ===== src/Query/Results/Annotated.antt =====
-- What the window functions leave as it was and what they add (`apply_window_functions` of
-- src/query/datalog/executor.rs).
use minigraf.Query.Results.Written.{HasIndex}
use minigraf.Prelude.{some, Ordering}
use minigraf.Prelude.{ℕ, suc, ◌<◌, ◌≡◌, refl, sym, ◌∙◌, ◌⊎◌, inl, inr, List, [], ◌∷◌, arith, length}
use minigraf.Error.{ok, ok-of_bind}
use mathlib.Core.Path.{subst}
use minigraf.Error.{ok_injective}
use minigraf.Prelude.Options.{some_injective}
use minigraf.Prelude.Options.{some-of_map}
use minigraf.Query.Results.Sortable.{some-of_sort_by}
use minigraf.Graph.Value.{Value}
use minigraf.Query.Results.SortBy.{sort_keyed}
use minigraf.Prelude.Text.{Text}
use minigraf.Prelude.Map.{lookup, bytes_key}
use minigraf.Prelude.OrderedMap.Entries.{IsIn}
use minigraf.Query.Eval.{FloatArithmetic}
use minigraf.Query.Matcher.{Bindings}
use minigraf.Query.Aggregate.{value_or_null, value_cmp}
use minigraf.Query.Aggregate.Registry.{Aggregates}
use minigraf.Query.Results.Specs.{WindowSpec, FindSpec, win_key}
use minigraf.Query.Results.Windows.{
  row_at, Partitions, partition_rows, lookup_some, write_values, keyed_rows, window_args, in_order,
  sorted_rows, window_values, window_rows, window_partition, window_partitions,
  apply_window_functions,
}
use minigraf.Query.Results.Written.{
  BindsName, length-write_values, lookup-write_values, BindsName-write_values,
  BindsName-of_write_values,
}
use minigraf.Query.Results.Covered.{
  ok-of_then_run, HasRow, HasRow-partition_rows, HasIndex-sort_keyed, HasIndex-keyed_rows,
  length-map, length-window_values,
}

-- The rows are as many as before, and of the names only `key` may have another value.
pub record Kept (key : Text) (before after : List Bindings) : Type 0 where
  pub rows : length after ≡ length before
  pub others :
      (k : ℕ) (x : Text) → ¬ (key ≡ x) → lookup x (row_at k after) ≡ lookup x (row_at k before)
  pub bound : (k : ℕ) (x : Text) → BindsName x (row_at k before) → BindsName x (row_at k after)

Kept-refl : (key : Text) (bs : List Bindings) → Kept key bs bs
Kept-refl key bs = record { rows = refl; others = λ k x other. refl; bound = λ k x b. b }

Kept-trans : (key : Text) (a b c : List Bindings) → Kept key a b → Kept key b c → Kept key a c
Kept-trans key a b c ab bc = record {
  rows = bc.rows ∙ ab.rows;
  others = λ k x other. bc.others k x other ∙ ab.others k x other;
  bound = λ k x h. bc.bound k x (ab.bound k x h);
}

-- The i-th of the specs, counted from the given number, is a window function.
abbrev pub IsWindowAt : ℕ → ℕ → List FindSpec → Type 0
IsWindowAt i n [] = ⊥
IsWindowAt i n (FindSpec.window ws ∷ specs) = (i ≡ n) ⊎ IsWindowAt i (suc n) specs
IsWindowAt i n (spec ∷ specs) = IsWindowAt i (suc n) specs

-- The rows after the window functions: as many, alike at every name but those of the window
-- values, and with a window value for each window function.
pub record IsAnnotated (n : ℕ) (specs : List FindSpec) (before after : List Bindings) : Type 0 where
  pub rows : length after ≡ length before
  pub others :
      (k : ℕ) (x : Text)
      → ((i : ℕ) → ¬ (win_key i ≡ x))
      → lookup x (row_at k after) ≡ lookup x (row_at k before)
  pub bound : (k : ℕ) (x : Text) → BindsName x (row_at k before) → BindsName x (row_at k after)
  pub windows :
      (i k : ℕ) → IsWindowAt i n specs → k < length before → BindsName (win_key i) (row_at k after)

skipped :
    (spec : FindSpec) (n : ℕ) (specs : List FindSpec) (bs next : List Bindings)
    → ((i : ℕ) → IsWindowAt i n (spec ∷ specs) → IsWindowAt i (suc n) specs)
    → IsAnnotated (suc n) specs bs next
    → IsAnnotated n (spec ∷ specs) bs next
skipped spec n specs bs next same rest = record {
  rows = rest.rows;
  others = rest.others;
  bound = rest.bound;
  windows = λ i k at below. rest.windows i k (same i at) below;
}

annotates_next :
    (ws : WindowSpec) (n : ℕ) (specs : List FindSpec) (bs mid next : List Bindings)
    → Kept (win_key n) bs mid
    → ((k : ℕ) → k < length bs → BindsName (win_key n) (row_at k mid))
    → IsAnnotated (suc n) specs mid next
    → IsAnnotated n (FindSpec.window ws ∷ specs) bs next
annotates_next ws n specs bs mid next kept written rest = record {
  rows = rest.rows ∙ kept.rows;
  others = λ k x other. rest.others k x other ∙ kept.others k x (other n);
  bound = λ k x b. rest.bound k x (kept.bound k x b);
  windows = λ i k at below. reached i k at below;
}
  where
    reached :
        (i k : ℕ)
        → IsWindowAt i n (FindSpec.window ws ∷ specs)
        → k < length bs
        → BindsName (win_key i) (row_at k next)
    reached i k (inl same) below =
        subst (λ j. BindsName (win_key j) (row_at k next)) (sym same)
          (rest.bound k (win_key n) (written k below))
    reached i k (inr later) below = rest.windows i k later (omega (arith, below, kept.rows))

module _ {Any : Type 0} (f64 : FloatArithmetic) where
  -- The rows of a sorted partition.
  window_rows-Kept :
      (registry : Aggregates Any) (key : Text) (ws : WindowSpec) (keyed : List (Value × ℕ))
      (bs next : List Bindings)
      → window_rows f64 registry key ws bs keyed ≡ ok next
      → Kept key bs next
        × ((k : ℕ) → HasIndex k keyed → k < length bs → BindsName key (row_at k next))
  window_rows-Kept registry key ws keyed bs next h =
      let (values, answered, written) =
        ok-of_bind (window_values f64 registry ws.func keyed (window_args ws keyed bs))
          (λ vs. ok (write_values key keyed vs bs)) h in
      let as_many : length values ≡ length keyed =
        length-window_values f64 registry ws.func keyed (window_args ws keyed bs) values
          (length-map (λ x. value_or_null (lookup_some ws.var (row_at x.1 bs))) keyed) answered in
      let e : write_values key keyed values bs ≡ next = ok_injective written in
      (
        subst (Kept key bs) e record {
          rows = length-write_values key keyed values bs;
          others = λ k x other. lookup-write_values key x k keyed values bs other;
          bound = λ k x b. BindsName-write_values key x k keyed values bs b;
        },
        λ k here below.
            subst (λ r. BindsName key (row_at k r)) e
              (BindsName-of_write_values key k keyed values bs here as_many below),
      )

  pub window_partition-Kept :
      (registry : Aggregates Any) (key : Text) (ws : WindowSpec) (rows : List ℕ)
      (bs next : List Bindings)
      → window_partition f64 registry key ws rows bs ≡ some (ok next)
      → Kept key bs next × ((k : ℕ) → IsIn k rows → k < length bs → BindsName key (row_at k next))
  window_partition-Kept registry key ws rows bs next h =
      let order : Value → Value → Ordering = λ a b. in_order ws.order (value_cmp f64 a b) in
      let (keyed, sorted, answered) =
        some-of_map (sorted_rows f64 ws rows bs) (window_rows f64 registry key ws bs) h in
      let (kept, written) = window_rows-Kept registry key ws keyed bs next answered in
      let e : sort_keyed order (keyed_rows ws rows bs) ≡ keyed =
        some-of_sort_by order (keyed_rows ws rows bs) keyed sorted in
      (
        kept,
        λ k here below.
            written k
              (subst (HasIndex k) e (
                HasIndex-sort_keyed order k (keyed_rows ws rows bs)
                  (HasIndex-keyed_rows ws k rows bs here)))
              below,
      )

  pub window_partitions-Kept :
      (registry : Aggregates Any) (key : Text) (ws : WindowSpec) (partitions : Partitions)
      (bs next : List Bindings)
      → window_partitions f64 registry key ws partitions bs ≡ some (ok next)
      → Kept key bs next
        × ((k : ℕ) → HasRow k partitions → k < length bs → BindsName key (row_at k next))
  unfolding window_partitions
  window_partitions-Kept registry key ws [] bs next h = (
    subst (Kept key bs) (ok_injective (some_injective h)) (Kept-refl key bs),
    λ k here. absurd here,
  )
  window_partitions-Kept registry key ws ((p, rows) ∷ partitions) bs next h =
      let (mid, first, later) =
        ok-of_then_run (window_partition f64 registry key ws rows bs)
          (λ r. window_partitions f64 registry key ws partitions r) h in
      let (kept, here) = window_partition-Kept registry key ws rows bs mid first in
      let (kept_on, there) = window_partitions-Kept registry key ws partitions mid next later in
      (
        Kept-trans key bs mid next kept kept_on,
        λ k row below. either mid k row below here there kept.rows kept_on.bound,
      )
    where
      either :
          (mid : List Bindings) (k : ℕ)
          → HasRow k ((p, rows) ∷ partitions)
          → k < length bs
          → ((j : ℕ) → IsIn j rows → j < length bs → BindsName key (row_at j mid))
          → ((j : ℕ) → HasRow j partitions → j < length mid → BindsName key (row_at j next))
          → length mid ≡ length bs
          → ((j : ℕ) (x : Text) → BindsName x (row_at j mid) → BindsName x (row_at j next))
          → BindsName key (row_at k next)
      either mid k (inl row) below here there e bound = bound k key (here k row below)
      either mid k (inr row) below here there e bound = there k row (omega (arith, below, e))

  -- The rows after the window functions are as many, alike but for the window values, and have a
  -- value for each window function.
  pub apply_window_functions-IsAnnotated :
      (registry : Aggregates Any) (n : ℕ) (specs : List FindSpec) (bs next : List Bindings)
      → apply_window_functions f64 registry n specs bs ≡ some (ok next)
      → IsAnnotated n specs bs next
  unfolding apply_window_functions
  apply_window_functions-IsAnnotated registry n [] bs next h =
      subst (IsAnnotated n [] bs) (ok_injective (some_injective h)) record {
        rows = refl;
        others = λ k x other. refl;
        bound = λ k x b. b;
        windows = λ i k at below. absurd at;
      }
  apply_window_functions-IsAnnotated registry n (FindSpec.window ws ∷ specs) bs next h =
      let partitions = partition_rows ws 0 [] bs in
      let (mid, first, later) =
        ok-of_then_run (window_partitions f64 registry (win_key n) ws partitions bs)
          (λ r. apply_window_functions f64 registry (suc n) specs r) h in
      let (kept, written) =
        window_partitions-Kept registry (win_key n) ws partitions bs mid first in
      annotates_next ws n specs bs mid next kept
        (λ k below.
          written k (HasRow-partition_rows ws k 0 [] bs (inr (omega arith, omega (arith, below))))
            below)
        (apply_window_functions-IsAnnotated registry (suc n) specs mid next later)
  apply_window_functions-IsAnnotated registry n (FindSpec.variable v ∷ specs) bs next h =
      skipped (FindSpec.variable v) n specs bs next (λ i at. at)
        (apply_window_functions-IsAnnotated registry (suc n) specs bs next h)
  apply_window_functions-IsAnnotated registry n (FindSpec.aggregate func var ∷ specs) bs next h =
      skipped (FindSpec.aggregate func var) n specs bs next (λ i at. at)
        (apply_window_functions-IsAnnotated registry (suc n) specs bs next h)
