-- ===== src/Query/Matcher.antt =====
-- `PatternMatcher` of src/query/datalog/matcher.rs: matching patterns with facts, and joining.
-- The uuid crate is an argument.
pub mod Join
pub mod Sense
pub mod Sound
pub mod Applied
pub mod Answers
pub mod Maps
pub mod Sides
pub mod Patterns
pub mod Complete
pub mod HashJoin
pub mod Hints
mod Tests
use minigraf.Prelude.{
  ℕ, ◌-◌, ◌^◌, Bool, true, false, ◌&&◌, ◌||◌, Option, none, some, List, [], ◌∷◌, ◌++◌, ltb, ◌==◌,
  if◌then◌else◌,
}
use minigraf.Prelude.Options.{◌>>=◌, push_some}
use minigraf.Error.{ok, err}
use minigraf.Prelude.Int.{ℤ, pos, negsuc}
use minigraf.Prelude.Text.{Text, codes, bytes_eq}
use minigraf.Prelude.Map.{Map, bytes_key, lookup, insert, contains_key}
use minigraf.Graph.Value.{Value, EntityId}
use minigraf.Graph.Value.Equal.{value_eq, int_eq, bool_eq, float_eq}
use minigraf.Graph.Fact.{Fact}
use minigraf.Graph.Index.{Indexes}
use minigraf.Graph.Store.{FactStorage}
use minigraf.Graph.Store.Query.{get_asserted_facts}
use minigraf.Rules.Syntax.{EdnValue, AttributeSpec, real, pseudo, PseudoAttr, Pattern}

-- What the program uses of the uuid crate: `Uuid::parse_str`, `Uuid::new_v5` in the namespace of
-- object identifiers, and `Uuid::to_string`.
pub record UuidCrate : Type 0 where
  pub parse_str : Text → Option EntityId
  pub new_v5 : Text → EntityId
  pub to_string : EntityId → Text

-- `Bindings`
abbrev pub Bindings : Type 0
Bindings = Map Text Value

-- `MatcherStorage`
pub data MatcherStorage : Type 0 where
  owned : FactStorage → MatcherStorage
  slice : List Fact → MatcherStorage

-- `PatternMatcher`
pub record PatternMatcher : Type 0 where
  pub storage : MatcherStorage
  pub valid_at_value : Value
  pub indexes : Indexes

-- `PatternMatcher::get_facts`
unfoldable pub facts_of : MatcherStorage → List Fact
facts_of (owned s) = elim (get_asserted_facts s) [ ok facts ↦ facts | err failure ↦ [] ]
facts_of (slice facts) = facts

-- `str::starts_with`
abbrev pub starts_with : Text → Text → Bool
starts_with [] s = true
starts_with (c ∷ prefix) [] = false
starts_with (c ∷ prefix) (d ∷ s) = c == d && starts_with prefix s

-- `k.trim_start_matches(':')`
unfoldable pub trim_colons : Text → Text
trim_colons [] = []
trim_colons (c ∷ s) = let rest = trim_colons s in if c == b':' then rest else c ∷ s

abbrev or_else : Option EntityId → EntityId → EntityId
or_else none other = other
or_else (some id) other = id

-- `u64::cast_signed`
abbrev pub cast_signed : ℕ → ℤ
cast_signed n = if ltb n (2 ^ 63) then pos n else negsuc (2 ^ 64 - 1 - n)

-- The hidden keys of a fact.
abbrev pub valid_from_key : Text
valid_from_key = codes "__fvf_"

abbrev pub valid_to_key : Text
valid_to_key = codes "__fvt_"

abbrev pub tx_count_key : Text
tx_count_key = codes "__ftc_"

abbrev pub tx_id_key : Text
tx_id_key = codes "__fti_"

abbrev pub is_hidden : Text → Bool
is_hidden key = starts_with (codes "__f") key

-- How `match_component` reads a symbol.
pub data SymbolKind : Type 0 where
  wildcard variable plain : SymbolKind

unfoldable pub symbol_kind : Text → SymbolKind
symbol_kind s =
    if bytes_eq s (codes "_") || starts_with (codes "?_") s
    then wildcard
    else if starts_with (codes "?") s
    then variable
    else plain

-- `matches!(component, EdnValue::Symbol(s) if s.starts_with('?'))`, and its name.
unfoldable pub variable_of : EdnValue → Option Text
variable_of (EdnValue.symbol s) = if starts_with (codes "?") s then some s else none
variable_of component = none

-- `value_to_edn`
unfoldable pub value_to_edn : Value → EdnValue
value_to_edn (Value.string s) = EdnValue.string s
value_to_edn (Value.integer n) = EdnValue.integer n
value_to_edn (Value.float bits) = EdnValue.float bits
value_to_edn (Value.boolean b) = EdnValue.boolean b
value_to_edn (Value.ref id) = EdnValue.uuid id
value_to_edn (Value.keyword k) = EdnValue.keyword k
value_to_edn Value.null = EdnValue.nil

abbrev pub bound_or : EdnValue → Option Value → EdnValue
bound_or component none = component
bound_or component (some value) = value_to_edn value

abbrev pub substituted : EdnValue → Bindings → Option Text → EdnValue
substituted component bindings none = component
substituted component bindings (some var) = bound_or component (lookup var bindings)

-- `apply_binding_to_component`
unfoldable pub apply_binding_to_component : EdnValue → Bindings → EdnValue
apply_binding_to_component component bindings =
    substituted component bindings (variable_of component)

abbrev pub applied_attribute : AttributeSpec → Bindings → AttributeSpec
applied_attribute (real edn) bindings = real (apply_binding_to_component edn bindings)
applied_attribute (pseudo p) bindings = pseudo p

-- `apply_bindings_to_pattern`
unfoldable pub apply_bindings_to_pattern : Pattern → Bindings → Pattern
apply_bindings_to_pattern pattern bindings = record pattern {
  entity = apply_binding_to_component pattern.entity bindings;
  attribute = applied_attribute pattern.attribute bindings;
  value = apply_binding_to_component pattern.value bindings;
}

module _ (uuid : UuidCrate) where
  -- `edn_to_entity_id` at a keyword, where it never fails.
  unfoldable pub keyword_to_entity_id : Text → EntityId
  keyword_to_entity_id k = or_else (uuid.parse_str (trim_colons k)) (uuid.new_v5 k)

  -- `edn_to_entity_id`; the text of its error is left out.
  unfoldable pub edn_to_entity_id : EdnValue → Option EntityId
  edn_to_entity_id (EdnValue.keyword k) = some (keyword_to_entity_id k)
  edn_to_entity_id (EdnValue.uuid u) = some u
  edn_to_entity_id edn = none

  -- `normalize_join_value`
  unfoldable pub normalize_join_value : Value → Value
  normalize_join_value (Value.keyword k) = Value.ref (keyword_to_entity_id k)
  normalize_join_value v = v

  -- The branches of `match_component` for constants.
  unfoldable pub match_constant : EdnValue → Value → Bool
  match_constant (EdnValue.keyword k) (Value.keyword fk) = bytes_eq k fk
  match_constant (EdnValue.keyword k) (Value.ref id) = keyword_to_entity_id k == id
  match_constant (EdnValue.string s) (Value.string fs) = bytes_eq s fs
  match_constant (EdnValue.integer i) (Value.integer fi) = int_eq i fi
  match_constant (EdnValue.float f) (Value.float ff) = float_eq f ff
  match_constant (EdnValue.boolean b) (Value.boolean fb) = bool_eq b fb
  match_constant (EdnValue.uuid u) (Value.ref id) = u == id
  match_constant (EdnValue.uuid u) (Value.keyword k) = u == keyword_to_entity_id k
  match_constant EdnValue.nil Value.null = true
  match_constant component value = false

  abbrev matched_variable : Text → Value → Bindings → Option Value → Option Bindings
  matched_variable var value bindings none = some (insert var value bindings)
  matched_variable var value bindings (some existing) =
      if value_eq existing value then some bindings else none

  abbrev match_symbol : Text → Value → Bindings → SymbolKind → Option Bindings
  match_symbol var value bindings wildcard = some bindings
  match_symbol var value bindings variable =
      matched_variable var value bindings (lookup var bindings)
  match_symbol var value bindings plain = none

  -- `match_component`: the bindings where it answers `true`.
  unfoldable pub match_component : EdnValue → Value → Bindings → Option Bindings
  match_component (EdnValue.symbol var) value bindings =
      match_symbol var value bindings (symbol_kind var)
  match_component component value bindings =
      if match_constant component value then some bindings else none

  -- The hidden keys of a fact are stored.
  unfoldable pub with_hidden : Fact → Bindings → Bindings
  with_hidden fact bindings =
      let eid : Text = uuid.to_string fact.entity in
      insert (tx_id_key ++ eid) (Value.integer (cast_signed fact.tx_id)) (
        insert (tx_count_key ++ eid) (Value.integer (cast_signed fact.tx_count)) (
          insert (valid_to_key ++ eid) (Value.integer fact.valid_to)
            (insert (valid_from_key ++ eid) (Value.integer fact.valid_from) bindings)))

  abbrev pub pseudo_value : Value → Fact → PseudoAttr → Value
  pseudo_value valid_at fact PseudoAttr.valid_from = Value.integer fact.valid_from
  pseudo_value valid_at fact PseudoAttr.valid_to = Value.integer fact.valid_to
  pseudo_value valid_at fact PseudoAttr.tx_count = Value.integer (cast_signed fact.tx_count)
  pseudo_value valid_at fact PseudoAttr.tx_id = Value.integer (cast_signed fact.tx_id)
  pseudo_value valid_at fact PseudoAttr.valid_at = valid_at

  -- The attribute and the value of a pattern, after its entity.
  unfoldable pub match_attribute :
      Value → Fact → AttributeSpec → EdnValue → Bindings → Option Bindings
  match_attribute valid_at fact (real edn) value bindings = do
    with_attribute ← match_component edn (Value.keyword fact.attribute) bindings
    with_value ← match_component value fact.value with_attribute
    some (with_hidden fact with_value)
  match_attribute valid_at fact (pseudo p) value bindings =
      match_component value (pseudo_value valid_at fact p) bindings

  -- `match_fact_against_pattern`
  unfoldable pub match_fact_against_pattern : Value → Fact → Pattern → Option Bindings
  match_fact_against_pattern valid_at fact pattern = do
    with_entity ← match_component pattern.entity (Value.ref fact.entity) []
    match_attribute valid_at fact pattern.attribute pattern.value with_entity

  unfoldable pub match_facts : Value → Pattern → List Fact → List Bindings
  match_facts valid_at pattern [] = []
  match_facts valid_at pattern (fact ∷ facts) =
      push_some (match_fact_against_pattern valid_at fact pattern)
        (match_facts valid_at pattern facts)

  -- `match_pattern`
  unfoldable pub match_pattern : PatternMatcher → Pattern → List Bindings
  match_pattern m pattern = match_facts m.valid_at_value pattern (facts_of m.storage)
