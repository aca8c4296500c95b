-- ===== src/Query/Results/Covered.antt =====
-- The window functions give every row a value (`apply_window_functions` of
-- src/query/datalog/executor.rs).
use minigraf.Error.{Result, err}
use minigraf.Query.Results.SortBy.{placed_keyed, insert_keyed, sort_keyed}
use minigraf.Query.Results.Windows.{then_run}
use minigraf.Prelude.{
  ℕ, suc, ◌+◌, ◌-◌, ◌^◌, ◌≤◌, ◌<◌, Ordering, ◌≡◌, refl, sym, ap, ◌∙◌, ◌≢◌, ◌⊎◌, inl, inr, Option,
  none, some, List, [], ◌∷◌, ◌++◌, map, arith, ltb, ◌==◌, if◌then◌else◌, Bool-cases, length,
}
use minigraf.Error.{coded, ok, err, ◌>>=◌, ok-of_bind}
use minigraf.Error.{ok_injective, int032}
use minigraf.Prelude.Int.{pos}
use minigraf.Prelude.Map.{bytes_key}
use minigraf.Prelude.OrderedMap.Entries.{IsIn}
use minigraf.Graph.Value.{Value}
use minigraf.Query.Eval.{FloatArithmetic}
use minigraf.Query.Matcher.{Bindings}
use minigraf.Query.Aggregate.{AggState, WindowOps}
use minigraf.Query.Aggregate.Registry.{UdfOps, AggImpl, AggregateDesc, Aggregates, get}
use minigraf.Query.Results.Specs.{WindowFunc, WindowSpec, func_name}
use minigraf.Query.Results.Windows.{
  Partitions, add_index, option_eq, partition_rows, lookup_some, row_numbers, ranks, running,
  running_udf, run_over_rows, run_found, keyed_rows, window_values,
}
use minigraf.Query.Results.Written.{HasIndex}

-- The row stands in a partition.
abbrev pub HasRow : ℕ → Partitions → Type 0
HasRow k [] = ⊥
HasRow k ((key, rows) ∷ partitions) = IsIn k rows ⊎ HasRow k partitions

IsIn-append : (k i : ℕ) (rows : List ℕ) → (k ≡ i) ⊎ IsIn k rows → IsIn k (rows ++ (i ∷ []))
IsIn-append k i [] (inl e) = inl e
IsIn-append k i [] (inr h) = absurd h
IsIn-append k i (j ∷ rows) (inl e) = inr (IsIn-append k i rows (inl e))
IsIn-append k i (j ∷ rows) (inr (inl e)) = inl e
IsIn-append k i (j ∷ rows) (inr (inr h)) = inr (IsIn-append k i rows (inr h))

HasRow-add_index :
    (key : Option Value) (k i : ℕ) (partitions : Partitions)
    → (k ≡ i) ⊎ HasRow k partitions
    → HasRow k (add_index key i partitions)
unfolding add_index
HasRow-add_index key k i [] (inl e) = inl (inl e)
HasRow-add_index key k i [] (inr h) = absurd h
HasRow-add_index key k i ((j, rows) ∷ partitions) h = elim (Bool-cases (option_eq j key)) [
  | inl same ↦ rw same (joined h)
  | inr other ↦ rw other (elsewhere (HasRow-add_index key k i partitions) h)
]
  where
    joined :
        (k ≡ i) ⊎ HasRow k ((j, rows) ∷ partitions) → HasRow k ((j, rows ++ (i ∷ [])) ∷ partitions)
    joined (inl e) = inl (IsIn-append k i rows (inl e))
    joined (inr (inl here)) = inl (IsIn-append k i rows (inr here))
    joined (inr (inr later)) = inr later

    elsewhere :
        ((k ≡ i) ⊎ HasRow k partitions → HasRow k (add_index key i partitions))
        → (k ≡ i) ⊎ HasRow k ((j, rows) ∷ partitions)
        → HasRow k ((j, rows) ∷ add_index key i partitions)
    elsewhere rest (inl e) = inr (rest (inl e))
    elsewhere rest (inr (inl here)) = inl here
    elsewhere rest (inr (inr later)) = inr (rest (inr later))

pub HasRow-partition_rows :
    (ws : WindowSpec) (k row : ℕ) (partitions : Partitions) (bs : List Bindings)
    → HasRow k partitions ⊎ ((row ≤ k) × (k < row + length bs))
    → HasRow k (partition_rows ws row partitions bs)
unfolding partition_rows
HasRow-partition_rows ws k row partitions [] (inl h) = h
HasRow-partition_rows ws k row partitions [] (inr (low, high)) = absurd (omega arith)
HasRow-partition_rows ws k row partitions (b ∷ bs) h =
    HasRow-partition_rows ws k (suc row) (add_index (lookup_some ws.partition_by b) row partitions)
      bs (next h)
  where
    next :
        HasRow k partitions ⊎ ((row ≤ k) × (k < row + length (b ∷ bs)))
        → HasRow k (add_index (lookup_some ws.partition_by b) row partitions)
          ⊎ ((suc row ≤ k) × (k < suc row + length bs))
    next (inl here) =
        inl (HasRow-add_index (lookup_some ws.partition_by b) k row partitions (inr here))
    next (inr (low, high)) = elim (Bool-cases (k == row)) [
      | inl e ↦
          let same : k ≡ row = ground arith in
          inl (HasRow-add_index (lookup_some ws.partition_by b) k row partitions (inl same))
      | inr e ↦ let other : k ≢ row = ground arith in inr (omega arith, omega arith)
    ]

HasIndex-placed_keyed :
    (k : ℕ) (x y : Value × ℕ) (ys later : List (Value × ℕ)) (o : Ordering)
    → (HasIndex k (x ∷ ys) → HasIndex k later)
    → HasIndex k (x ∷ y ∷ ys)
    → HasIndex k (placed_keyed x y ys later o)
HasIndex-placed_keyed k x y ys later Ordering.lt rest h = h
HasIndex-placed_keyed k x y ys later Ordering.eq rest h = h
HasIndex-placed_keyed k x y ys later Ordering.gt rest (inl e) = inr (rest (inl e))
HasIndex-placed_keyed k x y ys later Ordering.gt rest (inr (inl e)) = inl e
HasIndex-placed_keyed k x y ys later Ordering.gt rest (inr (inr h)) = inr (rest (inr h))

HasIndex-insert_keyed :
    (order : Value → Value → Ordering) (k : ℕ) (x : Value × ℕ) (ys : List (Value × ℕ))
    → HasIndex k (x ∷ ys)
    → HasIndex k (insert_keyed order x ys)
unfolding insert_keyed
HasIndex-insert_keyed order k x [] h = h
HasIndex-insert_keyed order k x (y ∷ ys) h =
    HasIndex-placed_keyed k x y ys (insert_keyed order x ys) (order x.0 y.0)
      (HasIndex-insert_keyed order k x ys) h

pub HasIndex-sort_keyed :
    (order : Value → Value → Ordering) (k : ℕ) (xs : List (Value × ℕ))
    → HasIndex k xs
    → HasIndex k (sort_keyed order xs)
unfolding sort_keyed
HasIndex-sort_keyed order k [] h = h
HasIndex-sort_keyed order k (x ∷ xs) (inl e) = HasIndex-insert_keyed order k x _ (inl e)
HasIndex-sort_keyed order k (x ∷ xs) (inr h) =
    HasIndex-insert_keyed order k x _ (inr (HasIndex-sort_keyed order k xs h))

pub HasIndex-keyed_rows :
    (ws : WindowSpec) (k : ℕ) (rows : List ℕ) (bs : List Bindings)
    → IsIn k rows
    → HasIndex k (keyed_rows ws rows bs)
HasIndex-keyed_rows ws k [] bs h = h
HasIndex-keyed_rows ws k (i ∷ rows) bs (inl e) = inl e
HasIndex-keyed_rows ws k (i ∷ rows) bs (inr h) = inr (HasIndex-keyed_rows ws k rows bs h)

pub length-map : {A B : Type 0} (f : A → B) (xs : List A) → length (map f xs) ≡ length xs
length-map f [] = refl
length-map f (x ∷ xs) = ap suc (length-map f xs)

length-row_numbers :
    (n : ℕ) (keyed : List (Value × ℕ)) (values : List Value)
    → row_numbers n keyed ≡ ok values
    → length values ≡ length keyed
unfolding row_numbers
length-row_numbers n [] values h = sym (ap length (ok_injective h))
length-row_numbers n (x ∷ keyed) values h = elim (Bool-cases (ltb (2 ^ 63 - 1) n)) [
  | inl over ↦ absurd (failed (rw over at h))
  | inr fits ↦ after (length-row_numbers (suc n) keyed) (rw fits at h)
]
  where
    failed : {v : List Value} → err (coded int032) ≡ ok v → ⊥
    failed e = cc

    after :
        ((vs : List Value) → row_numbers (suc n) keyed ≡ ok vs → length vs ≡ length keyed)
        → (row_numbers (suc n) keyed >>= λ vs. ok (Value.integer (pos n) ∷ vs)) ≡ ok values
        → length values ≡ suc (length keyed)
    after rest e =
        let (vs, numbered, all) =
          ok-of_bind (row_numbers (suc n) keyed) (λ v. ok (Value.integer (pos n) ∷ v)) e in
        sym (ap length (ok_injective all)) ∙ ap suc (rest vs numbered)

length-ranks :
    (rank n : ℕ) (prev : Option Value) (keyed : List (Value × ℕ))
    → length (ranks rank n prev keyed) ≡ length keyed
unfolding ranks
length-ranks rank n prev [] = refl
length-ranks rank n prev ((key, i) ∷ keyed) =
    let tied = option_eq prev (some key) in
    ap suc (length-ranks (if tied then rank else n) (suc n) (if tied then prev else some key) keyed)

length-running :
    (ops : WindowOps) (state : AggState) (values : List Value)
    → length (running ops state values) ≡ length values
unfolding running
length-running ops state [] = refl
length-running ops state (v ∷ values) = ap suc (length-running ops (ops.step state v) values)

-- A window function that answers has a value for every row.
module _ {Any : Type 0} (f64 : FloatArithmetic) where
  length-running_udf :
      (ops : UdfOps Any) (acc : Any) (n : ℕ) (values : List Value)
      → length (running_udf f64 ops acc n values) ≡ length values
  unfolding running_udf
  length-running_udf ops acc n [] = refl
  length-running_udf ops acc n (v ∷ values) =
      ap suc (length-running_udf ops (ops.step acc v) (n + 1) values)

  length-run_found :
      (desc : Option (AggregateDesc Any)) (args values : List Value)
      → run_found f64 desc args ≡ ok values
      → length values ≡ length args
  length-run_found none args values h = cc
  length-run_found (some desc) args values h =
      sym (ap length (ok_injective h)) ∙ length-rows desc.impl_
    where
      length-rows : (impl : AggImpl Any) → length (run_over_rows f64 impl args) ≡ length args
      length-rows (AggImpl.builtin ops) = length-running ops ops.init args
      length-rows (AggImpl.udf ops) = length-running_udf ops ops.init 0 args

  pub length-window_values :
      (registry : Aggregates Any) (func : WindowFunc) (keyed : List (Value × ℕ))
      (args values : List Value)
      → length args ≡ length keyed
      → window_values f64 registry func keyed args ≡ ok values
      → length values ≡ length keyed
  length-window_values registry WindowFunc.row_number keyed args values e h =
      length-row_numbers 1 keyed values h
  length-window_values registry WindowFunc.rank keyed args values e h =
      sym (ap length (ok_injective h)) ∙ length-ranks 1 1 none keyed
  length-window_values registry WindowFunc.sum keyed args values e h =
      length-run_found (get registry (func_name WindowFunc.sum)) args values h ∙ e
  length-window_values registry func keyed args values e h =
      length-run_found (get registry (func_name func)) args values h ∙ e

-- A chain of calls that answers has a first call that answers.
pub ok-of_then_run :
    {A B : Type 0} (o : Option (Result A)) (next : A → Option (Result B)) {b : B}
    → then_run o next ≡ some (ok b)
    → (a : A) × (o ≡ some (ok a)) × (next a ≡ some (ok b))
ok-of_then_run none next h = cc
ok-of_then_run (some (err f)) next h = cc
ok-of_then_run (some (ok a)) next h = (a, refl, h)
