-- ===== src/Query/Matcher/Patterns.antt =====
-- Every answer to a list of patterns satisfies each of them (src/query/datalog/matcher.rs).
use minigraf.Prelude.{
  ◌≡◌, refl, sym, inl, inr, Option, none, some, List, [], ◌∷◌, ◌++◌, append-nil, append_assoc, All,
  All-append,
}
use minigraf.Prelude.Options.{none-ne-some}
use minigraf.Prelude.Text.{Text}
use minigraf.Prelude.Map.{bytes_key, lookup}
use minigraf.Prelude.OrderedMap.Entries.{IsIn}
use minigraf.Graph.Value.{Value}
use minigraf.Graph.Fact.{Fact}
use minigraf.Rules.Syntax.{EdnValue, AttributeSpec, real, pseudo, Pattern}
use minigraf.Query.Matcher.{
  UuidCrate, Bindings, PatternMatcher, facts_of, apply_bindings_to_pattern,
  match_fact_against_pattern, match_facts, match_pattern, normalize_join_value,
}
use minigraf.Query.Matcher.Join.{
  joined, BuildSide, merge, merge_each, scan_facts, match_pattern_with_bindings_scan, by_attribute,
  match_pattern_with_bindings, probe, joined_by, join_with_pattern, join_each, match_patterns,
}
use minigraf.Query.Matcher.Sound.{HoldsAttribute, HoldsOf, match_fact_against_pattern-HoldsOf}
use minigraf.Query.Matcher.Sense.{Extends, Holds-Extends}
use minigraf.Query.Matcher.Applied.{IsReal, HoldsOf-apply}
use minigraf.Query.Matcher.Answers.{joined-Extends, merge-Extends}
use minigraf.Query.Matcher.Maps.{match_fact-IsMap}
use minigraf.Query.Matcher.Sides.{
  All-push_some, All-flat_map, All-map, AllSide, find_side-All, build_side-AllSide,
}

module _ (uuid : UuidCrate) where
  -- A pattern is satisfied under bindings: it holds of a fact.
  abbrev pub Satisfies : PatternMatcher → Bindings → Pattern → Type 0
  Satisfies m b pattern =
      (fact : Fact) × IsIn fact (facts_of m.storage) × HoldsOf uuid m.valid_at_value pattern fact b

  HoldsAttribute-Extends :
      (valid_at : Value) (fact : Fact) (attribute : AttributeSpec) (value : EdnValue)
      → (b c : Bindings) → Extends uuid b c
      → HoldsAttribute uuid valid_at fact attribute value b
      → HoldsAttribute uuid valid_at fact attribute value c
  HoldsAttribute-Extends valid_at fact (real edn) value b c f (a, h) =
      (Holds-Extends uuid edn _ b c f a, Holds-Extends uuid value _ b c f h)
  HoldsAttribute-Extends valid_at fact (pseudo p) value b c f h = Holds-Extends uuid value _ b c f h

  Satisfies-Extends :
      (m : PatternMatcher) (b c : Bindings) (pattern : Pattern)
      → Extends uuid b c
      → Satisfies m b pattern
      → Satisfies m c pattern
  Satisfies-Extends m b c pattern f (fact, there, (entity, rest)) = (
    fact,
    there,
    (
      Holds-Extends uuid pattern.entity _ b c f entity,
      HoldsAttribute-Extends m.valid_at_value fact pattern.attribute pattern.value b c f rest,
    ),
  )

  match_facts-Satisfies :
      (m : PatternMatcher) (pattern : Pattern) (facts : List Fact)
      → ((fact : Fact) → IsIn fact facts → IsIn fact (facts_of m.storage))
      → All (λ b. Satisfies m b pattern) (match_facts uuid m.valid_at_value pattern facts)
  unfolding match_facts
  match_facts-Satisfies m pattern [] within = tt
  match_facts-Satisfies m pattern (fact ∷ facts) within =
      All-push_some (λ b. Satisfies m b pattern)
        (match_fact_against_pattern uuid m.valid_at_value fact pattern) _
        (λ b e. (
          fact,
          within fact (inl refl),
          match_fact_against_pattern-HoldsOf uuid m.valid_at_value fact pattern b e,
        ))
        (match_facts-Satisfies m pattern facts (λ f i. within f (inr i)))

  match_pattern-Satisfies :
      (m : PatternMatcher) (pattern : Pattern)
      → All (λ b. Satisfies m b pattern) (match_pattern uuid m pattern)
  unfolding match_pattern
  match_pattern-Satisfies m pattern =
      match_facts-Satisfies m pattern (facts_of m.storage) (λ f i. i)

  -- A row that goes on with a pattern keeps its bindings and satisfies the pattern.
  abbrev GoesOn : PatternMatcher → Pattern → Bindings → Bindings → Type 0
  GoesOn m pattern existing b = Extends uuid existing b × Satisfies m b pattern

  scan_facts-GoesOn :
      (m : PatternMatcher) (pattern : Pattern) (existing : Bindings) (facts : List Fact)
      → IsReal pattern.attribute
      → ((fact : Fact) → IsIn fact facts → IsIn fact (facts_of m.storage))
      → All (GoesOn m pattern existing) (scan_facts uuid m.valid_at_value pattern existing facts)
  unfolding scan_facts
  scan_facts-GoesOn m pattern existing [] r within = tt
  scan_facts-GoesOn m pattern existing (fact ∷ facts) r within =
      All-push_some (GoesOn m pattern existing) (joined existing found) _
        (λ b e. row b found refl e)
        (scan_facts-GoesOn m pattern existing facts r (λ f i. within f (inr i)))
    where
      found : Option Bindings
      found =
          match_fact_against_pattern uuid m.valid_at_value fact
            (apply_bindings_to_pattern pattern existing)

      row :
          (b : Bindings) (o : Option Bindings)
          → found ≡ o
          → joined existing o ≡ some b
          → GoesOn m pattern existing b
      row b none e h = absurd (none-ne-some h)
      row b (some added) e h =
          let (x, y) =
            joined-Extends uuid existing added b
              (match_fact-IsMap uuid m.valid_at_value fact _ added e) h in
          (
            x,
            (
              fact,
              within fact (inl refl),
              HoldsOf-apply uuid m.valid_at_value pattern fact existing added b r x y
                  (match_fact_against_pattern-HoldsOf uuid m.valid_at_value fact _ added e),
            ),
          )

  by_attribute-GoesOn :
      (m : PatternMatcher) (pattern : Pattern) (existing : Bindings) (attribute : AttributeSpec)
      → IsReal attribute
      → IsReal pattern.attribute
      → All (GoesOn m pattern existing) (by_attribute uuid m pattern existing attribute)
  unfolding match_pattern_with_bindings_scan
  by_attribute-GoesOn m pattern existing (real edn) q r =
      scan_facts-GoesOn m pattern existing (facts_of m.storage) r (λ f i. i)
  by_attribute-GoesOn m pattern existing (pseudo p) q r = absurd q

  match_pattern_with_bindings-GoesOn :
      (m : PatternMatcher) (pattern : Pattern) (existing : Bindings)
      → IsReal pattern.attribute
      → All (GoesOn m pattern existing) (match_pattern_with_bindings uuid m pattern existing)
  unfolding match_pattern_with_bindings
  match_pattern_with_bindings-GoesOn m pattern existing r =
      by_attribute-GoesOn m pattern existing pattern.attribute r r

  merge_each-GoesOn :
      (m : PatternMatcher) (pattern : Pattern) (existing : Bindings) (candidates : List Bindings)
      → All (λ b. Satisfies m b pattern) candidates
      → All (GoesOn m pattern existing) (merge_each uuid existing candidates)
  unfolding merge_each
  merge_each-GoesOn m pattern existing [] all = tt
  merge_each-GoesOn m pattern existing (candidate ∷ candidates) (s, all) =
      All-push_some (GoesOn m pattern existing) (merge uuid existing candidate) _
        (λ b e.
          let (x, y) = merge-Extends uuid existing candidate b e in
          (x, Satisfies-Extends m candidate b pattern y s))
        (merge_each-GoesOn m pattern existing candidates all)

  probe-GoesOn :
      (m : PatternMatcher) (pattern : Pattern) (side : BuildSide) (existing : Bindings)
      → (found : Option Value) → IsReal pattern.attribute
      → AllSide (λ b. Satisfies m b pattern) side
      → All (GoesOn m pattern existing) (probe uuid m pattern side existing found)
  probe-GoesOn m pattern side existing none r all =
      match_pattern_with_bindings-GoesOn m pattern existing r
  probe-GoesOn m pattern side existing (some val) r all =
      merge_each-GoesOn m pattern existing _
        (find_side-All _ (normalize_join_value uuid val) side all)

  -- Rows that satisfy the patterns so far, and then one more.
  abbrev AllSatisfied : PatternMatcher → List Pattern → Bindings → Type 0
  AllSatisfied m patterns b = All (Satisfies m b) patterns

  goes_on :
      (m : PatternMatcher) (done : List Pattern) (pattern : Pattern) (existing b : Bindings)
      → AllSatisfied m done existing
      → GoesOn m pattern existing b
      → AllSatisfied m (done ++ (pattern ∷ [])) b
  goes_on m done pattern existing b all (x, s) =
      All-append (Satisfies m b) done (pattern ∷ [])
        (All-map (Satisfies m existing) (Satisfies m b) (λ p. Satisfies-Extends m existing b p x)
          done all)
        (s, tt)

  joined_by-AllSatisfied :
      (m : PatternMatcher) (done : List Pattern) (pattern : Pattern) (rows : List Bindings)
      → (var : Option Text) → IsReal pattern.attribute
      → All (AllSatisfied m done) rows
      → All (AllSatisfied m (done ++ (pattern ∷ []))) (joined_by uuid m pattern rows var)
  joined_by-AllSatisfied m done pattern rows none r all =
      All-flat_map (AllSatisfied m done) (AllSatisfied m (done ++ (pattern ∷ []))) _
        (λ row s.
          All-map (GoesOn m pattern row) _ (λ b. goes_on m done pattern row b s) _
            (match_pattern_with_bindings-GoesOn m pattern row r))
        rows all
  joined_by-AllSatisfied m done pattern rows (some var) r all =
      All-flat_map (AllSatisfied m done) (AllSatisfied m (done ++ (pattern ∷ []))) _
        (λ row s.
          All-map (GoesOn m pattern row) _ (λ b. goes_on m done pattern row b s) _
            (probe-GoesOn m pattern _ row (lookup var row) r (
              build_side-AllSide uuid (λ b. Satisfies m b pattern) var
                (match_pattern uuid m pattern) [] (match_pattern-Satisfies m pattern) tt)))
        rows all

  join_with_pattern-AllSatisfied :
      (m : PatternMatcher) (done : List Pattern) (pattern : Pattern) (rows : List Bindings)
      → IsReal pattern.attribute
      → All (AllSatisfied m done) rows
      → All (AllSatisfied m (done ++ (pattern ∷ []))) (join_with_pattern uuid m rows pattern)
  unfolding join_with_pattern
  join_with_pattern-AllSatisfied m done pattern [] r all = tt
  join_with_pattern-AllSatisfied m done pattern (row ∷ rows) r all =
      joined_by-AllSatisfied m done pattern (row ∷ rows) _ r all

  join_each-AllSatisfied :
      (m : PatternMatcher) (done : List Pattern) (rows : List Bindings) (patterns : List Pattern)
      → All (λ p. IsReal p.attribute) patterns
      → All (AllSatisfied m done) rows
      → All (AllSatisfied m (done ++ patterns)) (join_each uuid m rows patterns)
  unfolding join_each
  join_each-AllSatisfied m done rows [] rs all = rw (append-nil done) all
  join_each-AllSatisfied m done rows (pattern ∷ patterns) (r, rs) all =
      rw (sym (append_assoc done (pattern ∷ []) patterns)) (
        join_each-AllSatisfied m (done ++ (pattern ∷ [])) _ patterns rs
          (join_with_pattern-AllSatisfied m done pattern rows r all))

  -- Each answer of `match_patterns` to patterns with stored attributes satisfies every one of
  -- them, whichever way it was joined: for each pattern there is a fact of the storage whose
  -- entity, attribute and value are what the pattern's components stand for under the answer. A
  -- keyword and the identifier of its entity count as one, and so do the two zeros.
  pub match_patterns-Satisfies :
      (m : PatternMatcher) (patterns : List Pattern)
      → All (λ p. IsReal p.attribute) patterns
      → All (λ b. All (Satisfies m b) patterns) (match_patterns uuid m patterns)
  unfolding match_patterns
  match_patterns-Satisfies m [] rs = (tt, tt)
  match_patterns-Satisfies m (first ∷ patterns) (r, rs) =
      join_each-AllSatisfied m (first ∷ []) (match_pattern uuid m first) patterns rs (
        All-map (λ b. Satisfies m b first) _ (λ b s. (s, tt)) (match_pattern uuid m first)
          (match_pattern-Satisfies m first))
