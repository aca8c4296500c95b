-- ===== src/Query/Results/Columns.antt =====
-- The columns that order the rows of a window function in src/query/datalog/executor.rs.
use minigraf.Prelude.{
  ℕ, zero, suc, ◌+◌, ◌≤◌, ◌<◌, ◌≡◌, sym, ◌∙◌, inl, inr, Option, some, List, [], ◌∷◌, arith,
  Bool-cases, length, All, All-append,
}
use mathlib.Core.Path.{subst}
use minigraf.Prelude.Text.{Text}
use minigraf.Prelude.Map.{lookup, bytes_key}
use minigraf.Graph.Value.{Value}
use minigraf.Query.Eval.{FloatArithmetic}
use minigraf.Query.Matcher.{Bindings}
use minigraf.Query.Aggregate.{value_or_null, value_cmp}
use minigraf.Query.Results.Specs.{WindowSpec, FindSpec, win_key}
use minigraf.Query.Results.SortBy.{sort_keyed}
use minigraf.Query.Results.Windows.{
  row_at, Partitions, add_index, option_eq, partition_rows, lookup_some, keyed_rows, in_order,
  sorted_rows,
}
use minigraf.Query.Results.Annotated.{Kept}
use minigraf.Query.Results.Sortable.{SortKind, IsOfKind, sort_by-IsOfKind}

-- A variable is a name that begins with `?`.
abbrev pub IsVariable : Text → Type 0
IsVariable v = (rest : Text) × (v ≡ 63 ∷ rest)

pub not_win_key : (v : Text) → IsVariable v → (i : ℕ) → ¬ (win_key i ≡ v)
not_win_key v (rest, e) i h = differ (h ∙ e)
  where
    differ : {text : Text} → ¬ (◌≡◌ {A = Text} (95 ∷ text) (63 ∷ rest))
    differ k = cc

-- The value that orders a row.
abbrev pub sort_key : WindowSpec → Bindings → Value
sort_key ws b = value_or_null (lookup ws.order_by b)

-- A window function orders by a variable whose values are of one kind.
abbrev pub CanSort : List Bindings → FindSpec → Type 0
CanSort bs (FindSpec.window ws) =
    IsVariable ws.order_by × ((kind : SortKind) × All (λ b. IsOfKind kind (sort_key ws b)) bs)
CanSort bs spec = Unit {0}

abbrev pub IsColumn : WindowSpec → SortKind → List Bindings → Type 0
IsColumn ws kind bs = (k : ℕ) → k < length bs → IsOfKind kind (sort_key ws (row_at k bs))

pub All-IsColumn :
    (ws : WindowSpec) (kind : SortKind) (bs : List Bindings)
    → All (λ b. IsOfKind kind (sort_key ws b)) bs
    → IsColumn ws kind bs
unfolding row_at
All-IsColumn ws kind [] all k below = absurd (omega arith)
All-IsColumn ws kind (b ∷ bs) (here, all) zero below = here
All-IsColumn ws kind (b ∷ bs) (here, all) (suc k) below =
    All-IsColumn ws kind bs all k (omega (arith, below))

pub IsColumn-All :
    (ws : WindowSpec) (kind : SortKind) (bs : List Bindings)
    → IsColumn ws kind bs
    → All (λ b. IsOfKind kind (sort_key ws b)) bs
unfolding row_at
IsColumn-All ws kind [] column = tt
IsColumn-All ws kind (b ∷ bs) column = (
  column 0 (omega arith),
  IsColumn-All ws kind bs (λ k below. column (suc k) (omega (arith, below))),
)

-- The window values leave the columns of the variables as they were.
pub IsColumn-Kept :
    (ws : WindowSpec) (kind : SortKind) (n : ℕ) (bs next : List Bindings)
    → IsVariable ws.order_by
    → Kept (win_key n) bs next
    → IsColumn ws kind bs
    → IsColumn ws kind next
IsColumn-Kept ws kind n bs next is_var kept column k below =
    subst (λ o. IsOfKind kind (value_or_null o))
      (sym (kept.others k ws.order_by (not_win_key ws.order_by is_var n)))
      (column k (omega (arith, below, kept.rows)))

pub CanSort-Kept :
    (spec : FindSpec) (n : ℕ) (bs next : List Bindings)
    → Kept (win_key n) bs next
    → CanSort bs spec
    → CanSort next spec
CanSort-Kept (FindSpec.window ws) n bs next kept (is_var, (kind, all)) = (
  is_var,
  (
    kind,
    IsColumn-All ws kind next
        (IsColumn-Kept ws kind n bs next is_var kept (All-IsColumn ws kind bs all)),
  ),
)
CanSort-Kept spec n bs next kept can = tt

pub all-CanSort-Kept :
    (specs : List FindSpec) (n : ℕ) (bs next : List Bindings)
    → Kept (win_key n) bs next
    → All (CanSort bs) specs
    → All (CanSort next) specs
all-CanSort-Kept [] n bs next kept all = tt
all-CanSort-Kept (spec ∷ specs) n bs next kept (here, all) =
    (CanSort-Kept spec n bs next kept here, all-CanSort-Kept specs n bs next kept all)

-- The partitions hold indices of rows.
abbrev pub InRange : ℕ → Partitions → Type 0
InRange m partitions = All (λ p. All (λ i. i < m) p.1) partitions

InRange-add_index :
    (key : Option Value) (i m : ℕ) (partitions : Partitions)
    → i < m
    → InRange m partitions
    → InRange m (add_index key i partitions)
unfolding add_index
InRange-add_index key i m [] h all = ((h, tt), tt)
InRange-add_index key i m ((k, rows) ∷ partitions) h (here, all) =
    elim (Bool-cases (option_eq k key)) [
      | inl same ↦ rw same (All-append (λ j. j < m) rows (i ∷ []) here (h, tt), all)
      | inr other ↦ rw other (here, InRange-add_index key i m partitions h all)
    ]

pub InRange-partition_rows :
    (ws : WindowSpec) (row m : ℕ) (partitions : Partitions) (bs : List Bindings)
    → row + length bs ≤ m
    → InRange m partitions
    → InRange m (partition_rows ws row partitions bs)
unfolding partition_rows
InRange-partition_rows ws row m partitions [] h all = all
InRange-partition_rows ws row m partitions (b ∷ bs) h all =
    InRange-partition_rows ws (suc row) m (add_index (lookup_some ws.partition_by b) row partitions)
      bs (omega (arith, h))
      (InRange-add_index (lookup_some ws.partition_by b) row m partitions (omega (arith, h)) all)

keyed_rows-IsOfKind :
    (ws : WindowSpec) (kind : SortKind) (rows : List ℕ) (bs : List Bindings)
    → IsColumn ws kind bs
    → All (λ i. i < length bs) rows
    → All (λ x. IsOfKind kind x.0) (keyed_rows ws rows bs)
keyed_rows-IsOfKind ws kind [] bs column all = tt
keyed_rows-IsOfKind ws kind (i ∷ rows) bs column (here, all) =
    (column i here, keyed_rows-IsOfKind ws kind rows bs column all)

-- The rows of a partition are sorted, where the column is of one kind.
pub sorted_rows-IsOfKind :
    (f64 : FloatArithmetic) (ws : WindowSpec) (kind : SortKind) (rows : List ℕ) (bs : List Bindings)
    → IsColumn ws kind bs
    → All (λ i. i < length bs) rows
    → sorted_rows f64 ws rows bs
      ≡ some (sort_keyed (λ a b. in_order ws.order (value_cmp f64 a b)) (keyed_rows ws rows bs))
sorted_rows-IsOfKind f64 ws kind rows bs column all =
    sort_by-IsOfKind f64 ws.order kind (keyed_rows ws rows bs)
      (keyed_rows-IsOfKind ws kind rows bs column all)
