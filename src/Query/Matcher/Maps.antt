-- ===== src/Query/Matcher/Maps.antt =====
-- Matches are maps (src/query/datalog/matcher.rs).
use minigraf.Prelude.{◌≡◌, Bool, true, false, Option, none, some, [], if◌then◌else◌}
use mathlib.Core.Path.{subst}
use minigraf.Prelude.Options.{some-of_bind, none-ne-some, some_injective}
use minigraf.Prelude.Text.{Text}
use minigraf.Prelude.Map.{bytes_key, lookup, IsMap, insert-IsMap}
use minigraf.Graph.Value.{Value}
use minigraf.Graph.Value.Equal.{value_eq}
use minigraf.Graph.Fact.{Fact}
use minigraf.Rules.Syntax.{EdnValue, AttributeSpec, real, pseudo, Pattern}
use minigraf.Query.Matcher.{
  UuidCrate, Bindings, SymbolKind, wildcard, variable, plain, symbol_kind, match_constant,
  matched_variable, match_symbol, match_component, with_hidden, pseudo_value, match_attribute,
  match_fact_against_pattern,
}

-- Matches are maps: no variable is bound twice.
module _ (uuid : UuidCrate) where
  kept_if :
      (test : Bool) (b c : Bindings) → IsMap b → (if test then some b else none) ≡ some c → IsMap c
  kept_if true b c m h = subst IsMap (some_injective h) m
  kept_if false b c m h = absurd (none-ne-some h)

  matched_variable-IsMap :
      (var : Text) (v : Value) (b c : Bindings) (found : Option Value)
      → IsMap b
      → matched_variable uuid var v b found ≡ some c
      → IsMap c
  matched_variable-IsMap var v b c none m h =
      subst IsMap (some_injective h) (insert-IsMap var v b m)
  matched_variable-IsMap var v b c (some existing) m h = kept_if (value_eq existing v) b c m h

  match_symbol-IsMap :
      (var : Text) (v : Value) (b c : Bindings) (kind : SymbolKind)
      → IsMap b
      → match_symbol uuid var v b kind ≡ some c
      → IsMap c
  match_symbol-IsMap var v b c wildcard m h = subst IsMap (some_injective h) m
  match_symbol-IsMap var v b c variable m h = matched_variable-IsMap var v b c (lookup var b) m h
  match_symbol-IsMap var v b c plain m h = absurd (none-ne-some h)

  match_component-IsMap :
      (component : EdnValue) (v : Value) (b c : Bindings)
      → IsMap b
      → match_component uuid component v b ≡ some c
      → IsMap c
  unfolding match_component
  match_component-IsMap (EdnValue.symbol var) v b c m h =
      match_symbol-IsMap var v b c (symbol_kind var) m h
  match_component-IsMap (EdnValue.keyword x) v b c m h =
      kept_if (match_constant uuid (EdnValue.keyword x) v) b c m h
  match_component-IsMap (EdnValue.string x) v b c m h =
      kept_if (match_constant uuid (EdnValue.string x) v) b c m h
  match_component-IsMap (EdnValue.integer x) v b c m h =
      kept_if (match_constant uuid (EdnValue.integer x) v) b c m h
  match_component-IsMap (EdnValue.float x) v b c m h =
      kept_if (match_constant uuid (EdnValue.float x) v) b c m h
  match_component-IsMap (EdnValue.boolean x) v b c m h =
      kept_if (match_constant uuid (EdnValue.boolean x) v) b c m h
  match_component-IsMap (EdnValue.uuid x) v b c m h =
      kept_if (match_constant uuid (EdnValue.uuid x) v) b c m h
  match_component-IsMap (EdnValue.vector x) v b c m h =
      kept_if (match_constant uuid (EdnValue.vector x) v) b c m h
  match_component-IsMap (EdnValue.list x) v b c m h =
      kept_if (match_constant uuid (EdnValue.list x) v) b c m h
  match_component-IsMap (EdnValue.map_of x) v b c m h =
      kept_if (match_constant uuid (EdnValue.map_of x) v) b c m h
  match_component-IsMap EdnValue.nil v b c m h =
      kept_if (match_constant uuid EdnValue.nil v) b c m h
  match_component-IsMap (EdnValue.bind_slot x) v b c m h =
      kept_if (match_constant uuid (EdnValue.bind_slot x) v) b c m h

  with_hidden-IsMap : (fact : Fact) (b : Bindings) → IsMap b → IsMap (with_hidden uuid fact b)
  unfolding with_hidden
  with_hidden-IsMap fact b m =
      insert-IsMap _ _ _ (insert-IsMap _ _ _ (insert-IsMap _ _ _ (insert-IsMap _ _ b m)))

  match_attribute-IsMap :
      (valid_at : Value) (fact : Fact) (attribute : AttributeSpec) (value : EdnValue)
      → (b c : Bindings) → IsMap b
      → match_attribute uuid valid_at fact attribute value b ≡ some c
      → IsMap c
  unfolding match_attribute
  match_attribute-IsMap valid_at fact (pseudo p) value b c m h =
      match_component-IsMap value (pseudo_value uuid valid_at fact p) b c m h
  match_attribute-IsMap valid_at fact (real edn) value b c m h =
      let (d, e₁, more₁) =
        some-of_bind (match_component uuid edn (Value.keyword fact.attribute) b) _ h in
      let (f, e₂, more₂) = some-of_bind (match_component uuid value fact.value d) _ more₁ in
      subst IsMap (some_injective more₂) (
        with_hidden-IsMap fact f (
          match_component-IsMap value fact.value d f
            (match_component-IsMap edn (Value.keyword fact.attribute) b d m e₁) e₂))

  pub match_fact-IsMap :
      (valid_at : Value) (fact : Fact) (pattern : Pattern) (c : Bindings)
      → match_fact_against_pattern uuid valid_at fact pattern ≡ some c
      → IsMap c
  unfolding match_fact_against_pattern
  match_fact-IsMap valid_at fact pattern c h =
      let (b, e, more) =
        some-of_bind (match_component uuid pattern.entity (Value.ref fact.entity) []) _ h in
      match_attribute-IsMap valid_at fact pattern.attribute pattern.value b c
        (match_component-IsMap pattern.entity (Value.ref fact.entity) [] b tt e) more
