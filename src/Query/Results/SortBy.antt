-- ===== src/Query/Results/SortBy.antt =====
-- `slice::sort_by` on keyed rows, as `apply_window_functions` of src/query/datalog/executor.rs
-- calls it.
use minigraf.Prelude.{
  ℕ, Ordering, Bool, true, false, not, ◌&&◌, ◌||◌, Option, none, some, List, [], ◌∷◌, if◌then◌else◌,
}
use minigraf.Prelude.Order.{flip}
use minigraf.Graph.Value.{Value}

-- The stable sort of `sort_by`, which keeps the order of equal keys.
abbrev pub placed_keyed :
    Value × ℕ → Value × ℕ → List (Value × ℕ) → List (Value × ℕ) → Ordering → List (Value × ℕ)
placed_keyed x y ys later Ordering.gt = y ∷ later
placed_keyed x y ys later Ordering.lt = x ∷ y ∷ ys
placed_keyed x y ys later Ordering.eq = x ∷ y ∷ ys

unfoldable pub insert_keyed :
    (Value → Value → Ordering) → Value × ℕ → List (Value × ℕ) → List (Value × ℕ)
insert_keyed order x [] = x ∷ []
insert_keyed order x (y ∷ ys) = placed_keyed x y ys (insert_keyed order x ys) (order x.0 y.0)

unfoldable pub sort_keyed : (Value → Value → Ordering) → List (Value × ℕ) → List (Value × ℕ)
sort_keyed order [] = []
sort_keyed order (x ∷ xs) = insert_keyed order x (sort_keyed order xs)

abbrev pub is_le : Ordering → Bool
is_le Ordering.gt = false
is_le o = true

abbrev pub is_same : Ordering → Ordering → Bool
is_same Ordering.lt Ordering.lt = true
is_same Ordering.eq Ordering.eq = true
is_same Ordering.gt Ordering.gt = true
is_same o p = false

-- The order turns round with its arguments, and is transitive.
abbrev pub is_ordered : (Value → Value → Ordering) → Value → Value → Value → Bool
is_ordered order a b c =
    is_same (order b a) (flip (order a b))
    && (not (is_le (order a b) && is_le (order b c)) || is_le (order a c))

unfoldable pub all_keys : (Value → Bool) → List (Value × ℕ) → Bool
all_keys test [] = true
all_keys test (x ∷ xs) = test x.0 && all_keys test xs

-- A total order on the keys.
abbrev pub is_total : (Value → Value → Ordering) → List (Value × ℕ) → Bool
is_total order xs = all_keys (λ a. all_keys (λ b. all_keys (is_ordered order a b) xs) xs) xs

-- `sort_by`; `none` is an order that is not total on the keys, where its documentation leaves the
-- result open and lets it panic.
abbrev pub sort_by : (Value → Value → Ordering) → List (Value × ℕ) → Option (List (Value × ℕ))
sort_by order xs = if is_total order xs then some (sort_keyed order xs) else none
