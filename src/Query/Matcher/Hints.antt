-- ===== src/Query/Matcher/Hints.antt =====
-- Matching with an index hint (src/query/datalog/matcher.rs).
use minigraf.Prelude.{◌≡◌, refl, Option, none, some, List, [], ◌∷◌, map}
use mathlib.Core.Option
use minigraf.Prelude.Text.{Text}
use minigraf.Graph.Value.{Value}
use minigraf.Graph.Index.{
  Indexes, FactRef, lookup_eavt_entity, lookup_aevt_attr, lookup_avet_attr_value, lookup_vaet_ref,
}
use minigraf.Rules.Syntax.{EdnValue, AttributeSpec, real, Pattern}
use minigraf.Query.Matcher.{
  UuidCrate, Bindings, PatternMatcher, facts_of, match_facts, match_pattern,
}
use minigraf.Query.Matcher.Join.{
  IndexHint, eavt, aevt, avet, vaet, join_with_pattern, join_each, match_patterns,
}

-- The value that is looked up in AVET.
abbrev value_bound : EdnValue → Option Value
value_bound (EdnValue.keyword k) = some (Value.keyword k)
value_bound (EdnValue.string s) = some (Value.string s)
value_bound (EdnValue.integer i) = some (Value.integer i)
value_bound (EdnValue.float f) = some (Value.float f)
value_bound (EdnValue.boolean b) = some (Value.boolean b)
value_bound (EdnValue.uuid u) = some (Value.ref u)
value_bound component = none

-- The attribute that is looked up.
abbrev attr_bound : AttributeSpec → Option Text
attr_bound (real (EdnValue.keyword attr)) = some attr
attr_bound attribute = none

abbrev by_entity : Indexes → EdnValue → Option (List FactRef)
by_entity indexes (EdnValue.uuid entity) = lookup_eavt_entity entity indexes
by_entity indexes component = some []

abbrev by_attr : Indexes → Option Text → Option (List FactRef)
by_attr indexes (some attr) = lookup_aevt_attr attr indexes
by_attr indexes none = some []

abbrev by_value : Indexes → Option Text → Option Value → Option (List FactRef)
by_value indexes (some attr) (some value) = lookup_avet_attr_value attr value indexes
by_value indexes attr value = some []

abbrev by_target : Indexes → EdnValue → Option (List FactRef)
by_target indexes (EdnValue.uuid target) = lookup_vaet_ref target indexes
by_target indexes component = some []

-- `lookup_with_hint`; `none` is a panic of the lookup.
unfoldable pub lookup_with_hint : Indexes → Pattern → IndexHint → Option (List FactRef)
lookup_with_hint indexes pattern eavt = by_entity indexes pattern.entity
lookup_with_hint indexes pattern aevt = by_attr indexes (attr_bound pattern.attribute)
lookup_with_hint indexes pattern avet =
    by_value indexes (attr_bound pattern.attribute) (value_bound pattern.value)
lookup_with_hint indexes pattern vaet = by_target indexes pattern.value

module _ (uuid : UuidCrate) where
  abbrev looked_up : PatternMatcher → Pattern → Option (List FactRef) → Option (List Bindings)
  looked_up m pattern none = none
  looked_up m pattern (some []) = some (match_pattern uuid m pattern)
  looked_up m pattern (some (r ∷ refs)) =
      some (match_facts uuid m.valid_at_value pattern (facts_of m.storage))

  -- `match_pattern_with_hint`
  unfoldable pub match_pattern_with_hint :
      PatternMatcher → Pattern → IndexHint → Option (List Bindings)
  match_pattern_with_hint m pattern hint =
      looked_up m pattern (lookup_with_hint m.indexes pattern hint)

  -- `match_with_hint_seeded`
  unfoldable pub match_with_hint_seeded :
      PatternMatcher → List Bindings → Pattern → IndexHint → Option (List Bindings)
  match_with_hint_seeded m [] pattern hint = some []
  match_with_hint_seeded m ([] ∷ []) pattern hint = match_pattern_with_hint m pattern hint
  match_with_hint_seeded m seed pattern hint = some (join_with_pattern uuid m seed pattern)

  -- `match_patterns_with_hints`
  unfoldable pub match_patterns_with_hints :
      PatternMatcher → List (Pattern × IndexHint) → Option (List Bindings)
  match_patterns_with_hints m [] = some ([] ∷ [])
  match_patterns_with_hints m ((pattern, hint) ∷ patterns) =
      Option.map (λ results. join_each uuid m results (map (λ p. p.0) patterns))
        (match_pattern_with_hint m pattern hint)

  match_pattern_with_hint-match_pattern :
      (m : PatternMatcher) (pattern : Pattern) (hint : IndexHint) (refs : List FactRef)
      → lookup_with_hint m.indexes pattern hint ≡ some refs
      → match_pattern_with_hint m pattern hint ≡ some (match_pattern uuid m pattern)
  unfolding match_pattern_with_hint match_pattern
  match_pattern_with_hint-match_pattern m pattern hint [] h = rw h refl
  match_pattern_with_hint-match_pattern m pattern hint (r ∷ refs) h = rw h refl

  -- A hint never changes the answers: where its lookup does not panic, the patterns with their
  -- hints have the answers of `match_patterns`.
  pub match_patterns_with_hints-match_patterns :
      (m : PatternMatcher) (first : Pattern) (hint : IndexHint)
      → (patterns : List (Pattern × IndexHint)) (refs : List FactRef)
      → lookup_with_hint m.indexes first hint ≡ some refs
      → match_patterns_with_hints m ((first, hint) ∷ patterns)
        ≡ some (match_patterns uuid m (first ∷ map (λ p. p.0) patterns))
  unfolding match_patterns_with_hints match_patterns
  match_patterns_with_hints-match_patterns m first hint patterns refs h =
      rw (match_pattern_with_hint-match_pattern m first hint refs h) refl
