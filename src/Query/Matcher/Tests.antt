-- ===== src/Query/Matcher/Tests.antt =====
-- The matcher run on three facts, and the witnesses.
use minigraf.Prelude.{inr, ℕ, ◌≡◌, refl, true, Option, none, some, [], ◌∷◌, map, length, All}
use minigraf.Prelude.Text.{Text, codes}
use minigraf.Prelude.Int.{pos, i64_max}
use minigraf.Prelude.Map.{bytes_key, lookup}
use minigraf.Graph.Value.{Value}
use minigraf.Graph.Fact.{Fact}
use minigraf.Graph.Index.{no_indexes}
use minigraf.Rules.Syntax.{EdnValue, real, Pattern}
use minigraf.Query.Matcher.{
  UuidCrate, PatternMatcher, slice, match_pattern, match_facts, facts_of,
  match_fact_against_pattern, match_component, symbol_kind, match_attribute, match_constant,
  variable_of, with_hidden, normalize_join_value, keyword_to_entity_id, trim_colons,
}
use minigraf.Query.Matcher.Join.{
  match_patterns, join_each, join_with_pattern, join_var, merge_each, find_side, build_side,
  add_to_side, merge,
}
use minigraf.Graph.Value.Equal.{value_eq}
use minigraf.Query.Matcher.Join.{joined_by, flat_map}
use minigraf.Query.Matcher.{Bindings}
use minigraf.Query.Matcher.Sound.{HoldsOf}
use minigraf.Prelude.OrderedMap.Entries.{IsIn}
use minigraf.Prelude.{inl, ap, ◌∙◌, sym, true}
use mathlib.Core.Path.{subst}
use minigraf.Prelude.Text.{bytes_eq}
use minigraf.Query.Matcher.Complete.{Apart, Fits, match_pattern-found}
use minigraf.Query.Matcher.HashJoin.{Binds, joined_by-merge_each}
use minigraf.Query.Matcher.Patterns.{Satisfies, match_patterns-Satisfies}

-- Identifiers that are written as one character; a keyword is known by its length.
abbrev short_uuids : UuidCrate
short_uuids = record { parse_str = λ s. none; new_v5 = length; to_string = λ id. id ∷ [] }

abbrev fact_of : ℕ → Text → Value → Fact
fact_of entity attribute value = record {
  entity = entity;
  attribute = attribute;
  value = value;
  tx_id = 1000;
  tx_count = 1;
  valid_from = pos 0;
  valid_to = i64_max;
  asserted = true;
}

-- Entity 1 is in the department `:hr`, which is entity 3, and `:hr` is named.
abbrev staff : PatternMatcher
staff = record {
  storage = slice (
      fact_of 1 (codes ":dept") (Value.keyword (codes ":hr"))
      ∷ fact_of 2 (codes ":dept") (Value.keyword (codes ":sales"))
      ∷ fact_of 3 (codes ":name") (Value.string (codes "people"))
      ∷ []);
  valid_at_value = Value.null;
  indexes = no_indexes;
}

abbrev in_department : Pattern
in_department = record {
  entity = EdnValue.symbol (codes "?e");
  attribute = real (EdnValue.keyword (codes ":dept"));
  value = EdnValue.symbol (codes "?d");
  valid_from = none;
  valid_to = none;
}

abbrev named : Pattern
named = record in_department {
  entity = EdnValue.symbol (codes "?d");
  attribute = real (EdnValue.keyword (codes ":name"));
  value = EdnValue.symbol (codes "?n");
}

staff_answers :
    map {B = Option Value × Option Value × Option Value}
      (λ b. (lookup (codes "?e") b, lookup (codes "?d") b, lookup (codes "?n") b))
      (match_patterns short_uuids staff (in_department ∷ named ∷ []))
    ≡ (some (Value.ref 1), some (Value.keyword (codes ":hr")), some (Value.string (codes "people")))
      ∷ []
unfolding match_patterns match_pattern match_facts facts_of match_fact_against_pattern
    match_component symbol_kind match_attribute match_constant variable_of with_hidden
    normalize_join_value keyword_to_entity_id trim_colons join_each join_with_pattern join_var
    merge_each find_side build_side add_to_side merge value_eq
staff_answers = refl

match_patterns-Satisfies_example :
    All
      (λ b. All (Satisfies short_uuids staff b) (in_department ∷ named ∷ []))
      (match_patterns short_uuids staff (in_department ∷ named ∷ []))
match_patterns-Satisfies_example =
    match_patterns-Satisfies short_uuids staff (in_department ∷ named ∷ []) (tt, (tt, tt))

-- The row of entity 1, before its department is joined.
abbrev hr_row : Bindings
hr_row = (codes "?e", Value.ref 1) ∷ (codes "?d", Value.keyword (codes ":hr")) ∷ []

named-Binds : All (Binds short_uuids (codes "?d")) (match_pattern short_uuids staff named)
unfolding match_pattern match_facts facts_of match_fact_against_pattern match_component symbol_kind
    match_attribute match_constant with_hidden
named-Binds = ((Value.ref 3, refl), tt)

joined_by-merge_each_example :
    joined_by short_uuids staff named (hr_row ∷ []) (some (codes "?d"))
    ≡ flat_map
        (λ row. merge_each short_uuids row (match_pattern short_uuids staff named))
        (hr_row ∷ [])
joined_by-merge_each_example =
    joined_by-merge_each short_uuids (codes "?d") staff named (hr_row ∷ []) refl
      ((Value.keyword (codes ":hr"), refl), tt) named-Binds

abbrev name_of : EdnValue → Text
name_of (EdnValue.symbol s) = s
name_of component = []

variables_differ : Apart in_department.entity in_department.value
variables_differ s var x y =
    clash (subst (λ t. bytes_eq (codes "?e") t ≡ true) (ap name_of (x ∙ sym y)) refl)
  where
    clash : bytes_eq (codes "?e") (codes "?d") ≡ true → ⊥
    clash h = cc

dept_fact : Fact
dept_fact = fact_of 1 (codes ":dept") (Value.keyword (codes ":hr"))

dept_fact-Fits : Fits short_uuids in_department dept_fact
unfolding dept_fact symbol_kind
dept_fact-Fits = record {
  attribute = EdnValue.keyword (codes ":dept");
  stored = refl;
  entity_fits = inr (_, refl);
  attribute_fits = refl;
  value_fits = inr (_, refl);
  entity-attribute = λ s var x y. cc;
  entity-value = variables_differ;
  attribute-value = λ s var x y. cc;
}

match_pattern-found_example :
    (b : Bindings) × IsIn b (match_pattern short_uuids staff in_department)
    × HoldsOf short_uuids staff.valid_at_value in_department dept_fact b
match_pattern-found_example =
    match_pattern-found short_uuids staff in_department dept_fact
      (unfold dept_fact facts_of in inl refl) dept_fact-Fits
