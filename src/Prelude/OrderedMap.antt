-- ===== src/Prelude/OrderedMap.antt =====
-- Rust's `BTreeMap`: the entries in the order of their keys.
pub mod Entries
use minigraf.Prelude.{
  Ordering, Bool, true, false, not, ◌&&◌, Option, none, some, List, [], ◌∷◌, if◌then◌else◌, keep,
}

-- A type of keys with its `Ord::cmp`.
pub record Ordered (K : Type 0) : Type 0 where
  pub compare_keys : K → K → Ordering

abbrev pub is_lt : Ordering → Bool
is_lt Ordering.lt = true
is_lt Ordering.eq = false
is_lt Ordering.gt = false

module _ {K V : Type 0} where
  -- `map.values()`
  abbrev pub values : List (K × V) → List V
  values [] = []
  values ((k, v) ∷ m) = v ∷ values m

module _ {K : Type 0} ⦃ordered : Ordered K⦄ where
  -- The key is at least `lo` and below `hi`.
  abbrev pub in_range : K → K → K → Bool
  in_range lo hi k = not (is_lt (ordered.compare_keys k lo)) && is_lt (ordered.compare_keys k hi)

module _ {K V : Type 0} ⦃ordered : Ordered K⦄ where
  -- Where a key goes that compares so with the first key; `rest` is the insertion into the others.
  abbrev pub placed : K → V → K → V → List (K × V) → List (K × V) → Ordering → List (K × V)
  placed k v j w m rest Ordering.lt = (k, v) ∷ (j, w) ∷ m
  placed k v j w m rest Ordering.eq = (j, v) ∷ m
  placed k v j w m rest Ordering.gt = (j, w) ∷ rest

  -- `map.insert(k, v)`
  unfoldable pub insert_ordered : K → V → List (K × V) → List (K × V)
  insert_ordered k v [] = (k, v) ∷ []
  insert_ordered k v ((j, w) ∷ m) =
      placed k v j w m (insert_ordered k v m) (ordered.compare_keys k j)

  -- `map.range(lo..hi)`, with its panic on a start that is greater than the end.
  abbrev pub range : K → K → List (K × V) → Option (List (K × V))
  range lo hi m =
      if is_lt (ordered.compare_keys hi lo)
      then none
      else some (keep (λ entry. in_range lo hi entry.0) m)

  -- `map.range(lo..)`
  abbrev pub range_from : K → List (K × V) → List (K × V)
  range_from lo m = keep (λ entry. not (is_lt (ordered.compare_keys entry.0 lo))) m

  -- `map.range(lo..=hi)`, with the same panic.
  abbrev pub range_closed : K → K → List (K × V) → Option (List (K × V))
  range_closed lo hi m =
      if is_lt (ordered.compare_keys hi lo)
      then none
      else some (
          keep
            (λ entry.
              not (is_lt (ordered.compare_keys entry.0 lo))
              && not (is_lt (ordered.compare_keys hi entry.0)))
            m)
