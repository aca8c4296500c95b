-- ===== src/Query/Results/Total.antt =====
-- When the window functions answer (`apply_window_functions` of src/query/datalog/executor.rs).
use minigraf.Prelude.{
  ℕ, suc, ◌+◌, ◌-◌, ◌^◌, ◌≤◌, ◌<◌, Ordering, ◌≡◌, refl, ap, ◌∙◌, inl, inr, false, Option, none,
  some, List, [], ◌∷◌, arith, ltb, ltb-false, Bool-cases, length, All, length-append,
}
use minigraf.Error.{ok, ◌>>=◌}
use minigraf.Prelude.Int.{pos}
use minigraf.Prelude.Text.{Text}
use minigraf.Graph.Value.{Value}
use minigraf.Query.Eval.{FloatArithmetic}
use minigraf.Query.Matcher.{Bindings}
use minigraf.Query.Aggregate.{value_cmp}
use minigraf.Query.Aggregate.Registry.{AggregateDesc, Aggregates, get}
use minigraf.Query.Results.Specs.{WindowFunc, WindowSpec, FindSpec, func_name, win_key}
use minigraf.Query.Results.Windows.{
  Partitions, add_index, option_eq, partition_rows, lookup_some, row_numbers, ranks, run_over_rows,
  run_found, write_values, keyed_rows, window_args, in_order, window_values, then_run, window_rows,
  window_partition, window_partitions, apply_window_functions,
}
use minigraf.Query.Results.Covered.{length-map}
use minigraf.Query.Results.Annotated.{window_partition-Kept, window_partitions-Kept}
use minigraf.Query.Results.SortBy.{placed_keyed, insert_keyed, sort_keyed}
use minigraf.Query.Results.Sortable.{SortKind}
use minigraf.Query.Results.Columns.{
  IsVariable, CanSort, IsColumn, All-IsColumn, IsColumn-Kept, all-CanSort-Kept, InRange,
  InRange-partition_rows, sorted_rows-IsOfKind,
}
use mathlib.Core.Option
use mathlib.Core.Path.{subst}
use minigraf.Prelude.{sym}

-- A window function that accumulates is registered.
abbrev pub IsKnownFunction : {Any : Type 0} → Aggregates Any → WindowFunc → Type 0
IsKnownFunction registry WindowFunc.row_number = Unit {0}
IsKnownFunction registry WindowFunc.rank = Unit {0}
IsKnownFunction {Any} registry func =
    (desc : AggregateDesc Any) × (get registry (func_name func) ≡ some desc)

abbrev pub CanRun : {Any : Type 0} → Aggregates Any → FindSpec → Type 0
CanRun registry (FindSpec.window ws) = IsKnownFunction registry ws.func
CanRun registry spec = Unit {0}

-- No partition has more rows than that.
abbrev AtMost : ℕ → Partitions → Type 0
AtMost m partitions = All (λ p. length p.1 ≤ m) partitions

AtMost-more :
    (m n : ℕ) (partitions : Partitions) → m ≤ n → AtMost m partitions → AtMost n partitions
AtMost-more m n [] h all = tt
AtMost-more m n ((k, rows) ∷ partitions) h (here, all) =
    (omega (arith, h, here), AtMost-more m n partitions h all)

AtMost-add_index :
    (key : Option Value) (i m : ℕ) (partitions : Partitions)
    → AtMost m partitions
    → AtMost (suc m) (add_index key i partitions)
unfolding add_index
AtMost-add_index key i m [] all = (omega arith, tt)
AtMost-add_index key i m ((k, rows) ∷ partitions) (here, all) =
    elim (Bool-cases (option_eq k key)) [
      | inl same ↦ rw same (
        omega (arith, here, length-append rows (i ∷ [])),
        AtMost-more m (suc m) partitions (omega arith) all,
      )
      | inr other ↦ rw other (omega (arith, here), AtMost-add_index key i m partitions all)
    ]

AtMost-partition_rows :
    (ws : WindowSpec) (row m : ℕ) (partitions : Partitions) (bs : List Bindings)
    → AtMost m partitions
    → AtMost (m + length bs) (partition_rows ws row partitions bs)
unfolding partition_rows
AtMost-partition_rows ws row m partitions [] all =
    AtMost-more m (m + 0) partitions (omega arith) all
AtMost-partition_rows ws row m partitions (b ∷ bs) all =
    AtMost-more (suc m + length bs) (m + length (b ∷ bs)) _ (omega arith) (
      AtMost-partition_rows ws (suc row) (suc m)
        (add_index (lookup_some ws.partition_by b) row partitions) bs
        (AtMost-add_index (lookup_some ws.partition_by b) row m partitions all))

length-placed_keyed :
    (x y : Value × ℕ) (ys later : List (Value × ℕ)) (o : Ordering)
    → length later ≡ suc (length ys)
    → length (placed_keyed x y ys later o) ≡ suc (suc (length ys))
length-placed_keyed x y ys later Ordering.lt h = refl
length-placed_keyed x y ys later Ordering.eq h = refl
length-placed_keyed x y ys later Ordering.gt h = ap suc h

length-insert_keyed :
    (order : Value → Value → Ordering) (x : Value × ℕ) (ys : List (Value × ℕ))
    → length (insert_keyed order x ys) ≡ suc (length ys)
unfolding insert_keyed
length-insert_keyed order x [] = refl
length-insert_keyed order x (y ∷ ys) =
    length-placed_keyed x y ys (insert_keyed order x ys) (order x.0 y.0)
      (length-insert_keyed order x ys)

length-sort_keyed :
    (order : Value → Value → Ordering) (xs : List (Value × ℕ))
    → length (sort_keyed order xs) ≡ length xs
unfolding sort_keyed
length-sort_keyed order [] = refl
length-sort_keyed order (x ∷ xs) =
    length-insert_keyed order x (sort_keyed order xs) ∙ ap suc (length-sort_keyed order xs)

row_numbers-ok :
    (n : ℕ) (keyed : List (Value × ℕ))
    → n + length keyed ≤ 2 ^ 63
    → (values : List Value) × (row_numbers n keyed ≡ ok values)
unfolding row_numbers
row_numbers-ok n [] h = ([], refl)
row_numbers-ok n (x ∷ keyed) h =
    let (values, e) = row_numbers-ok (suc n) keyed (omega (arith, h)) in
    let fits : ltb (2 ^ 63 - 1) n ≡ false = ltb-false (2 ^ 63 - 1) n (omega (arith, h)) in
    (Value.integer (pos n) ∷ values, rw (fits, e) refl)

module _ {Any : Type 0} (f64 : FloatArithmetic) where
  run_found-ok :
      (desc : Option (AggregateDesc Any)) (args : List Value) (d : AggregateDesc Any)
      → desc ≡ some d
      → (values : List Value) × (run_found f64 desc args ≡ ok values)
  run_found-ok desc args d e = (run_over_rows f64 d.impl_ args, ap (λ o. run_found f64 o args) e)

  window_values-ok :
      (registry : Aggregates Any) (func : WindowFunc) (keyed : List (Value × ℕ)) (args : List Value)
      → IsKnownFunction registry func
      → length keyed < 2 ^ 63
      → (values : List Value) × (window_values f64 registry func keyed args ≡ ok values)
  window_values-ok registry WindowFunc.row_number keyed args known h =
      row_numbers-ok 1 keyed (omega (arith, h))
  window_values-ok registry WindowFunc.rank keyed args known h = (ranks 1 1 none keyed, refl)
  window_values-ok registry func keyed args (desc, known) h =
      run_found-ok (get registry (func_name func)) args desc known

  window_partition-ok :
      (registry : Aggregates Any) (key : Text) (ws : WindowSpec) (kind : SortKind) (rows : List ℕ)
      (bs : List Bindings)
      → IsKnownFunction registry ws.func
      → length rows < 2 ^ 63
      → IsColumn ws kind bs
      → All (λ i. i < length bs) rows
      → (next : List Bindings) × (window_partition f64 registry key ws rows bs ≡ some (ok next))
  window_partition-ok registry key ws kind rows bs known h column in_range =
      let keyed : List (Value × ℕ) =
        sort_keyed (λ a b. in_order ws.order (value_cmp f64 a b)) (keyed_rows ws rows bs) in
      let as_many : length keyed ≡ length rows =
        length-sort_keyed (λ a b. in_order ws.order (value_cmp f64 a b)) (keyed_rows ws rows bs)
        ∙ length-map _ rows in
      let (values, e) =
        window_values-ok registry ws.func keyed (window_args ws keyed bs) known
          (omega (arith, as_many, h)) in
      (
        write_values key keyed values bs,
        ap (Option.map (window_rows f64 registry key ws bs))
              (sorted_rows-IsOfKind f64 ws kind rows bs column in_range)
            ∙ ap (λ r. some (r >>= λ vs. ok (write_values key keyed vs bs))) e,
      )

  window_partitions-ok :
      (registry : Aggregates Any) (n : ℕ) (ws : WindowSpec) (kind : SortKind)
      (partitions : Partitions) (bs : List Bindings) (m : ℕ)
      → IsKnownFunction registry ws.func
      → m < 2 ^ 63
      → AtMost m partitions
      → IsVariable ws.order_by
      → IsColumn ws kind bs
      → InRange (length bs) partitions
      → (next : List Bindings) × (window_partitions f64 registry (win_key n) ws partitions bs
          ≡ some (ok next))
  unfolding window_partitions
  window_partitions-ok registry n ws kind [] bs m known h all is_var column in_range = (bs, refl)
  window_partitions-ok registry n ws kind ((p, rows) ∷ partitions) bs m known h (here, all) is_var
        column (valid, in_range) =
      let (mid, first) =
        window_partition-ok registry (win_key n) ws kind rows bs known (omega (arith, here, h))
          column valid in
      let (kept, written) = window_partition-Kept f64 registry (win_key n) ws rows bs mid first in
      let (next, later) =
        window_partitions-ok registry n ws kind partitions mid m known h all is_var
          (IsColumn-Kept ws kind n bs mid is_var kept column)
          (subst (λ l. InRange l partitions) (sym kept.rows) in_range) in
      (
        next,
        ap (λ r. then_run r (window_partitions f64 registry (win_key n) ws partitions)) first
            ∙ later,
      )

  pub apply_window_functions-ok :
      (registry : Aggregates Any) (n : ℕ) (specs : List FindSpec) (bs : List Bindings)
      → All (CanRun registry) specs
      → All (CanSort bs) specs
      → length bs < 2 ^ 63
      → (next : List Bindings) × (apply_window_functions f64 registry n specs bs ≡ some (ok next))
  unfolding apply_window_functions
  apply_window_functions-ok registry n [] bs ready sortable h = (bs, refl)
  apply_window_functions-ok registry n (FindSpec.window ws ∷ specs) bs (known, ready)
        ((is_var, (kind, column)), sortable) h =
      let partitions = partition_rows ws 0 [] bs in
      let (mid, first) =
        window_partitions-ok registry n ws kind partitions bs (length bs) known h
          (AtMost-more (0 + length bs) (length bs) partitions (omega arith)
            (AtMost-partition_rows ws 0 0 [] bs tt))
          is_var (All-IsColumn ws kind bs column)
          (InRange-partition_rows ws 0 (length bs) [] bs (omega arith) tt) in
      let (kept, written) =
        window_partitions-Kept f64 registry (win_key n) ws partitions bs mid first in
      let (next, later) =
        apply_window_functions-ok registry (suc n) specs mid ready
          (all-CanSort-Kept specs n bs mid kept sortable) (omega (arith, h, kept.rows)) in
      (next, ap (λ r. then_run r (apply_window_functions f64 registry (suc n) specs)) first ∙ later)
  apply_window_functions-ok registry n (FindSpec.variable v ∷ specs) bs (known, ready)
        (here, sortable) h =
      apply_window_functions-ok registry (suc n) specs bs ready sortable h
  apply_window_functions-ok registry n (FindSpec.aggregate func var ∷ specs) bs (known, ready)
        (here, sortable) h =
      apply_window_functions-ok registry (suc n) specs bs ready sortable h
