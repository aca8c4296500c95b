-- ===== src/Query/Results/Groups.antt =====
-- The groups of `compute_aggregation` (src/query/datalog/executor.rs): its `BTreeMap` from the
-- values of the grouping variables to the rows that have them.
use minigraf.Prelude.{Ordering, Bool, true, false, List, [], ◌∷◌, ◌++◌, map, if◌then◌else◌, any}
use minigraf.Prelude.Text.{Text}
use minigraf.Prelude.Map.{lookup, bytes_key}
use minigraf.Prelude.Order.{and_then}
use minigraf.Graph.Value.{Value, cmp}
use minigraf.Query.Matcher.{Bindings}
use minigraf.Query.Aggregate.{value_or_null}
use minigraf.Query.Results.Specs.{FindSpec}

-- `Vec<Value>::cmp`
unfoldable pub compare_group_keys : List Value → List Value → Ordering
compare_group_keys [] [] = Ordering.eq
compare_group_keys [] (b ∷ bs) = Ordering.lt
compare_group_keys (a ∷ as_) [] = Ordering.gt
compare_group_keys (a ∷ as_) (b ∷ bs) = and_then (cmp a b) (compare_group_keys as_ bs)

abbrev pub group_key : List Text → Bindings → List Value
group_key names b = map (λ v. value_or_null (lookup v b)) names

abbrev pub RowGroups : Type 0
RowGroups = List (List Value × List Bindings)

-- `groups.entry(key).or_default().push(b)`
abbrev pub placed_row :
    List Value
    → Bindings
    → List Value
    → List Bindings
    → RowGroups
    → RowGroups
    → Ordering
    → RowGroups
placed_row key b k rows groups later Ordering.lt = (key, b ∷ []) ∷ (k, rows) ∷ groups
placed_row key b k rows groups later Ordering.eq = (k, rows ++ (b ∷ [])) ∷ groups
placed_row key b k rows groups later Ordering.gt = (k, rows) ∷ later

unfoldable pub add_row : List Value → Bindings → RowGroups → RowGroups
add_row key b [] = (key, b ∷ []) ∷ []
add_row key b ((k, rows) ∷ groups) =
    placed_row key b k rows groups (add_row key b groups) (compare_group_keys key k)

unfoldable pub group_rows : List Text → RowGroups → List Bindings → RowGroups
group_rows names groups [] = groups
group_rows names groups (b ∷ bindings) =
    group_rows names (add_row (group_key names b) b groups) bindings

-- The names of the plain variables, in the order of the find specs.
unfoldable pub variable_names : List FindSpec → List Text
variable_names [] = []
variable_names (FindSpec.variable v ∷ specs) = v ∷ variable_names specs
variable_names (spec ∷ specs) = variable_names specs

abbrev pub is_window : FindSpec → Bool
is_window (FindSpec.window ws) = true
is_window spec = false

-- The variables whose values make the groups.
abbrev pub group_var_names : List FindSpec → List Text → List Text
group_var_names specs with_vars =
    if any is_window specs then variable_names specs else variable_names specs ++ with_vars
