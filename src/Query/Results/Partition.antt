-- ===== src/Query/Results/Partition.antt =====
-- What the groups of `compute_aggregation` (src/query/datalog/executor.rs) are.
use minigraf.Prelude.{
  ◌<◌, Ordering, ◌≡◌, refl, sym, ap, ◌∙◌, List, [], ◌∷◌, ◌++◌, append-nil, arith, length, All,
  length-append, All-append,
}
use mathlib.Core.List.{Perm, perm_middle}
use mathlib.Core.Path.{subst}
use mathlib.Core.List.Perm
use minigraf.Prelude.Order.{flip}
use minigraf.Prelude.Text.{Text}
use minigraf.Graph.Value.{Value, IsValue}
use minigraf.Query.Matcher.{Bindings}
use minigraf.Query.Results.Groups.{
  RowGroups, compare_group_keys, group_key, placed_row, add_row, group_rows,
}
use minigraf.Query.Results.KeyOrder.{flip-compare_group_keys, compare_keys_trans, compare_keys_self}

-- The rows of all groups.
unfoldable pub rows_of : RowGroups → List Bindings
rows_of [] = []
rows_of ((k, rows) ∷ groups) = rows ++ rows_of groups

-- The keys ascend, so that no two groups have one key.
abbrev pub IsAscending : RowGroups → Type 0
IsAscending [] = Unit {0}
IsAscending ((k, rows) ∷ groups) =
    All (λ g. compare_group_keys k g.0 ≡ Ordering.lt) groups × IsAscending groups

-- The rows of a group have its key; there is one at least, and the key is of values that exist.
abbrev pub IsGroup : List Text → List Value × List Bindings → Type 0
IsGroup names (k, rows) =
    All IsValue k
    × All (λ b. compare_group_keys (group_key names b) k ≡ Ordering.eq) rows
    × (0 < length rows)

abbrev pub HasKeyValues : List Text → Bindings → Type 0
HasKeyValues names b = All IsValue (group_key names b)

Perm-middle :
    (rows : List Bindings) (b : Bindings) (more : List Bindings)
    → Perm ((rows ++ (b ∷ [])) ++ more) (b ∷ (rows ++ more))
Perm-middle [] b more = Perm.refl (b ∷ more)
Perm-middle (c ∷ rows) b more =
    Perm.trans (Perm.cons c (Perm-middle rows b more)) (Perm.swap b c (rows ++ more))

add_row-Perm :
    (key : List Value) (b : Bindings) (groups : RowGroups)
    → Perm (rows_of (add_row key b groups)) (b ∷ rows_of groups)
unfolding add_row rows_of
add_row-Perm key b [] = Perm.refl (b ∷ [])
add_row-Perm key b ((k, rows) ∷ groups) =
    placed (compare_group_keys key k) (add_row-Perm key b groups)
  where
    placed :
        (o : Ordering)
        → Perm (rows_of (add_row key b groups)) (b ∷ rows_of groups)
        → Perm
            (rows_of (placed_row key b k rows groups (add_row key b groups) o))
            (b ∷ (rows ++ rows_of groups))
    placed Ordering.lt later = Perm.refl (b ∷ (rows ++ rows_of groups))
    placed Ordering.eq later = Perm-middle rows b (rows_of groups)
    placed Ordering.gt later =
        Perm.trans (Perm.append_left rows later) (perm_middle rows (rows_of groups))

group_rows-Perm :
    (names : List Text) (groups : RowGroups) (bs : List Bindings)
    → Perm (rows_of (group_rows names groups bs)) (rows_of groups ++ bs)
unfolding group_rows
group_rows-Perm names groups [] =
    subst (Perm (rows_of groups)) (sym (append-nil (rows_of groups))) (Perm.refl (rows_of groups))
group_rows-Perm names groups (b ∷ bs) =
    Perm.trans (group_rows-Perm names (add_row (group_key names b) b groups) bs) (
      Perm.trans (Perm.append_right bs (add_row-Perm (group_key names b) b groups))
        (Perm.symm (perm_middle (rows_of groups) bs)))

add_row-IsGroup :
    (names : List Text) (b : Bindings) (groups : RowGroups)
    → HasKeyValues names b
    → All (IsGroup names) groups
    → All (IsGroup names) (add_row (group_key names b) b groups)
unfolding add_row
add_row-IsGroup names b [] h all =
    ((h, (compare_keys_self (group_key names b) h, tt), omega arith), tt)
add_row-IsGroup names b ((k, rows) ∷ groups) h ((valid, same, some_row), all) =
    placed (compare_group_keys (group_key names b) k) refl (add_row-IsGroup names b groups h all)
  where
    placed :
        (o : Ordering)
        → compare_group_keys (group_key names b) k ≡ o
        → All (IsGroup names) (add_row (group_key names b) b groups)
        → All (IsGroup names) (
            placed_row (group_key names b) b k rows groups (add_row (group_key names b) b groups) o)
    placed Ordering.lt e later = (
      (h, (compare_keys_self (group_key names b) h, tt), omega arith),
      ((valid, same, some_row), all),
    )
    placed Ordering.eq e later = (
      (
        valid,
        All-append (λ c. compare_group_keys (group_key names c) k ≡ Ordering.eq) rows (b ∷ []) same
            (e, tt),
        omega (arith, length-append rows (b ∷ [])),
      ),
      all,
    )
    placed Ordering.gt e later = ((valid, same, some_row), later)

-- A key below those of the groups is below them once a row is added.
add_row-below :
    (j key : List Value) (b : Bindings) (groups : RowGroups)
    → compare_group_keys j key ≡ Ordering.lt
    → All (λ g. compare_group_keys j g.0 ≡ Ordering.lt) groups
    → All (λ g. compare_group_keys j g.0 ≡ Ordering.lt) (add_row key b groups)
unfolding add_row
add_row-below j key b [] h all = (h, tt)
add_row-below j key b ((k, rows) ∷ groups) h (here, all) =
    placed (compare_group_keys key k) (add_row-below j key b groups h all)
  where
    placed :
        (o : Ordering)
        → All (λ g. compare_group_keys j g.0 ≡ Ordering.lt) (add_row key b groups)
        → All
            (λ g. compare_group_keys j g.0 ≡ Ordering.lt)
            (placed_row key b k rows groups (add_row key b groups) o)
    placed Ordering.lt later = (h, (here, all))
    placed Ordering.eq later = (here, all)
    placed Ordering.gt later = (here, later)

-- A key below the first one of ascending groups is below all.
below_trans :
    (names : List Text) (key k : List Value) (groups : RowGroups)
    → All IsValue key
    → All IsValue k
    → compare_group_keys key k ≡ Ordering.lt
    → All (IsGroup names) groups
    → All (λ g. compare_group_keys k g.0 ≡ Ordering.lt) groups
    → All (λ g. compare_group_keys key g.0 ≡ Ordering.lt) groups
below_trans names key k [] hk hj h valid all = tt
below_trans names key k ((j, rows) ∷ groups) hk hj h ((value, alike, some_row), valid) (here, all) =
    (
      compare_keys_trans key k j hk hj value h here,
      below_trans names key k groups hk hj h valid all,
    )

add_row-IsAscending :
    (names : List Text) (key : List Value) (b : Bindings) (groups : RowGroups)
    → All IsValue key
    → All (IsGroup names) groups
    → IsAscending groups
    → IsAscending (add_row key b groups)
unfolding add_row
add_row-IsAscending names key b [] h valid ascends = (tt, tt)
add_row-IsAscending names key b ((k, rows) ∷ groups) h ((value, alike, some_row), valid)
      (below, ascends) =
    placed (compare_group_keys key k) refl (add_row-IsAscending names key b groups h valid ascends)
  where
    placed :
        (o : Ordering)
        → compare_group_keys key k ≡ o
        → IsAscending (add_row key b groups)
        → IsAscending (placed_row key b k rows groups (add_row key b groups) o)
    placed Ordering.lt e later =
        ((e, below_trans names key k groups h value e valid below), (below, ascends))
    placed Ordering.eq e later = (below, ascends)
    placed Ordering.gt e later = (
      add_row-below k key b groups (flip-compare_group_keys key k h value ∙ ap flip e) below,
      later,
    )

group_rows-kept :
    (names : List Text) (groups : RowGroups) (bs : List Bindings)
    → All (HasKeyValues names) bs
    → All (IsGroup names) groups
    → IsAscending groups
    → All (IsGroup names) (group_rows names groups bs) × IsAscending (group_rows names groups bs)
unfolding group_rows
group_rows-kept names groups [] h valid ascends = (valid, ascends)
group_rows-kept names groups (b ∷ bs) (here, h) valid ascends =
    group_rows-kept names (add_row (group_key names b) b groups) bs h
      (add_row-IsGroup names b groups here valid)
      (add_row-IsAscending names (group_key names b) b groups here valid ascends)

-- The rows of the groups are the rows that were grouped, each once. The rows of a group have its key
-- and there is one at least; the keys ascend, so that rows with equal keys share a group. The values
-- of the grouping variables are values of the Rust type.
pub group_rows-IsPartition :
    (names : List Text) (bs : List Bindings)
    → All (HasKeyValues names) bs
    → Perm (rows_of (group_rows names [] bs)) bs
      × All (IsGroup names) (group_rows names [] bs)
      × IsAscending (group_rows names [] bs)
unfolding rows_of
group_rows-IsPartition names bs h =
    let (groups, ascends) = group_rows-kept names [] bs h tt tt in
    (group_rows-Perm names [] bs, groups, ascends)
