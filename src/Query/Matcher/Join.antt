-- ===== src/Query/Matcher/Join.antt =====
-- Joining bindings with a further pattern (src/query/datalog/matcher.rs).
use minigraf.Prelude.{
  Bool, true, ◌&&◌, ◌||◌, Option, none, some, List, [], ◌∷◌, ◌++◌, if◌then◌else◌,
}
use minigraf.Prelude.Options.{◌>>=◌, push_some}
use minigraf.Prelude.Text.{Text}
use minigraf.Prelude.Map.{bytes_key, lookup, insert, contains_key}
use minigraf.Graph.Value.{Value, EntityId}
use minigraf.Graph.Value.Equal.{value_eq}
use minigraf.Graph.Fact.{Fact}
use minigraf.Rules.Syntax.{AttributeSpec, real, pseudo, PseudoAttr, Pattern}
use minigraf.Query.Matcher.{
  UuidCrate, Bindings, PatternMatcher, facts_of, valid_from_key, valid_to_key, tx_count_key,
  tx_id_key, is_hidden, variable_of, apply_binding_to_component, apply_bindings_to_pattern,
  edn_to_entity_id, normalize_join_value, match_component, match_fact_against_pattern,
  match_pattern,
}

-- `IndexHint` of src/query/datalog/optimizer.rs
pub data IndexHint : Type 0 where
  eavt aevt avet vaet : IndexHint

abbrev pub agrees : Value → Option Value → Bool
agrees val none = true
agrees val (some existing) = value_eq existing val

-- The check of `match_pattern_with_bindings_scan`: hidden keys are left out.
unfoldable pub is_consistent : Bindings → Bindings → Bool
is_consistent existing [] = true
is_consistent existing ((var, val) ∷ additional) =
    (is_hidden var || agrees val (lookup var existing)) && is_consistent existing additional

-- `new_bindings.extend(additional_bindings)`
unfoldable pub extend_bindings : Bindings → Bindings → Bindings
extend_bindings bindings [] = bindings
extend_bindings bindings ((var, val) ∷ additional) =
    extend_bindings (insert var val bindings) additional

abbrev pub joined : Bindings → Option Bindings → Option Bindings
joined existing none = none
joined existing (some additional) =
    if is_consistent existing additional then some (extend_bindings existing additional) else none

-- The hidden key of a pseudo-attribute; `:db/valid-at` has none.
abbrev pub hidden_key : PseudoAttr → Option Text
hidden_key PseudoAttr.valid_from = some valid_from_key
hidden_key PseudoAttr.valid_to = some valid_to_key
hidden_key PseudoAttr.tx_count = some tx_count_key
hidden_key PseudoAttr.tx_id = some tx_id_key
hidden_key PseudoAttr.valid_at = none

-- `results.extend(f(x))` for each `x`
abbrev pub flat_map {ℓ} : {A B : Type ℓ} → (A → List B) → List A → List B
flat_map f [] = []
flat_map f (x ∷ xs) = f x ++ flat_map f xs

abbrev bound_in : List Bindings → Option Text → Option Text
bound_in seed none = none
bound_in [] (some var) = none
bound_in (first ∷ seed) (some var) = if contains_key var first then some var else none

abbrev or_var : Option Text → Option Text → Option Text
or_var none other = other
or_var (some var) other = some var

-- `join_var`: a variable of the pattern that the first of the bindings binds.
unfoldable pub join_var : List Bindings → Pattern → AttributeSpec → Option Text
join_var existing pattern (pseudo p) = none
join_var existing pattern (real edn) =
    or_var (bound_in existing (variable_of pattern.entity))
      (bound_in existing (variable_of pattern.value))

-- `HashMap<Value, Vec<Bindings>>`, by `Value::eq`.
abbrev pub BuildSide : Type 0
BuildSide = List (Value × List Bindings)

-- `build_side.entry(key).or_default().push(b)`
unfoldable pub add_to_side : Value → Bindings → BuildSide → BuildSide
add_to_side key b [] = (key, b ∷ []) ∷ []
add_to_side key b ((k, bs) ∷ side) =
    if value_eq k key then (k, bs ++ (b ∷ [])) ∷ side else (k, bs) ∷ add_to_side key b side

-- `build_side.get(&key)`, empty where there is none.
unfoldable pub find_side : Value → BuildSide → List Bindings
find_side key [] = []
find_side key ((k, bs) ∷ side) = if value_eq k key then bs else find_side key side

module _ (uuid : UuidCrate) where
  abbrev pub side_with : Bindings → BuildSide → Option Value → BuildSide
  side_with b side none = side
  side_with b side (some val) = add_to_side (normalize_join_value uuid val) b side

  unfoldable pub build_side : Text → List Bindings → BuildSide → BuildSide
  build_side var [] side = side
  build_side var (b ∷ candidates) side = build_side var candidates (side_with b side (lookup var b))

  abbrev pub merged_at : Text → Value → Bindings → Option Value → Option Bindings
  merged_at var val merged none = some (insert var val merged)
  merged_at var val merged (some merged_val) =
      if value_eq (normalize_join_value uuid merged_val) (normalize_join_value uuid val)
      then some merged
      else none

  abbrev pub merged_with : Text → Value → Bindings → Option Bindings
  merged_with var val merged =
      if is_hidden var
      then some (insert var val merged)
      else merged_at var val merged (lookup var merged)

  -- The merge of a candidate into the bindings, with its check.
  unfoldable pub merge : Bindings → Bindings → Option Bindings
  merge merged [] = some merged
  merge merged ((var, val) ∷ candidate) = do more ← merged_with var val merged; merge more candidate

  unfoldable pub merge_each : Bindings → List Bindings → List Bindings
  merge_each existing [] = []
  merge_each existing (candidate ∷ candidates) =
      push_some (merge existing candidate) (merge_each existing candidates)

  unfoldable pub scan_facts : Value → Pattern → Bindings → List Fact → List Bindings
  scan_facts valid_at pattern existing [] = []
  scan_facts valid_at pattern existing (fact ∷ facts) =
      push_some
        (joined existing (
          match_fact_against_pattern uuid valid_at fact
            (apply_bindings_to_pattern pattern existing)))
        (scan_facts valid_at pattern existing facts)

  -- `match_pattern_with_bindings_scan`
  unfoldable pub match_pattern_with_bindings_scan :
      PatternMatcher → Pattern → Bindings → List Bindings
  match_pattern_with_bindings_scan m pattern existing =
      scan_facts m.valid_at_value pattern existing (facts_of m.storage)

  abbrev stored_or : PatternMatcher → Pattern → Bindings → Option Value → List Bindings
  stored_or m pattern existing none = match_pattern_with_bindings_scan m pattern existing
  stored_or m pattern existing (some stored) =
      push_some (match_component uuid pattern.value stored existing) []

  abbrev fast_path : PatternMatcher → Pattern → Bindings → Option Text → EntityId → List Bindings
  fast_path m pattern existing none id = match_pattern_with_bindings_scan m pattern existing
  fast_path m pattern existing (some key) id =
      stored_or m pattern existing (lookup (key ++ uuid.to_string id) existing)

  abbrev at_entity :
      PatternMatcher → Pattern → Bindings → PseudoAttr → Option EntityId → List Bindings
  at_entity m pattern existing p none = match_pattern_with_bindings_scan m pattern existing
  at_entity m pattern existing p (some id) = fast_path m pattern existing (hidden_key p) id

  abbrev pub by_attribute : PatternMatcher → Pattern → Bindings → AttributeSpec → List Bindings
  by_attribute m pattern existing (real edn) = match_pattern_with_bindings_scan m pattern existing
  by_attribute m pattern existing (pseudo p) =
      at_entity m pattern existing p
        (edn_to_entity_id uuid (apply_binding_to_component pattern.entity existing))

  -- `match_pattern_with_bindings`
  unfoldable pub match_pattern_with_bindings : PatternMatcher → Pattern → Bindings → List Bindings
  match_pattern_with_bindings m pattern existing = by_attribute m pattern existing pattern.attribute

  -- One row of the probe.
  abbrev pub probe : PatternMatcher → Pattern → BuildSide → Bindings → Option Value → List Bindings
  probe m pattern side existing none = match_pattern_with_bindings m pattern existing
  probe m pattern side existing (some val) =
      merge_each existing (find_side (normalize_join_value uuid val) side)

  -- The two ways of `join_with_pattern`.
  abbrev pub joined_by : PatternMatcher → Pattern → List Bindings → Option Text → List Bindings
  joined_by m pattern existing none = flat_map (match_pattern_with_bindings m pattern) existing
  joined_by m pattern existing (some var) =
      let side = build_side var (match_pattern uuid m pattern) [] in
      flat_map (λ row. probe m pattern side row (lookup var row)) existing

  -- `join_with_pattern`
  unfoldable pub join_with_pattern : PatternMatcher → List Bindings → Pattern → List Bindings
  join_with_pattern m [] pattern = []
  join_with_pattern m (first ∷ existing) pattern =
      joined_by m pattern (first ∷ existing) (join_var (first ∷ existing) pattern pattern.attribute)

  unfoldable pub join_each : PatternMatcher → List Bindings → List Pattern → List Bindings
  join_each m results [] = results
  join_each m results (pattern ∷ patterns) =
      join_each m (join_with_pattern m results pattern) patterns

  -- `match_patterns`
  unfoldable pub match_patterns : PatternMatcher → List Pattern → List Bindings
  match_patterns m [] = [] ∷ []
  match_patterns m (first ∷ patterns) = join_each m (match_pattern uuid m first) patterns

  -- `match_patterns_seeded`
  unfoldable pub match_patterns_seeded :
      PatternMatcher → List Pattern → List Bindings → List Bindings
  match_patterns_seeded m patterns [] = []
  match_patterns_seeded m patterns (first ∷ seed) = join_each m (first ∷ seed) patterns
