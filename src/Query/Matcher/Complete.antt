-- ===== src/Query/Matcher/Complete.antt =====
-- A fact that fits a pattern has an answer (src/query/datalog/matcher.rs).
use minigraf.Prelude.{
  ℕ, ◌^◌, Ordering, ◌⊎◌, ==_iff, if◌then◌else◌, arith, ◌≡◌, refl, sym, ap, ◌∙◌, inl, inr, Bool,
  true, false, Option, none, some, List, [], ◌∷◌, Bool-cases,
}
use minigraf.Prelude.Options.{push_some}
use minigraf.Prelude.Int.{ℤ, pos, negsuc, compare_ℤ}
use minigraf.Graph.Float.{is_nan, magnitude}
use minigraf.Graph.Value.Equal.{int_eq, bool_eq, float_eq}
use minigraf.Prelude.Text.{codes, bytes_eq_iff, Text, bytes_eq, bytes_eq→eq}
use minigraf.Prelude.Map.{bytes_key, lookup, insert, lookup-insert}
use minigraf.Prelude.OrderedMap.Entries.{IsIn}
use minigraf.Graph.Value.{Value}
use minigraf.Graph.Fact.{Fact}
use minigraf.Rules.Syntax.{EdnValue, real, Pattern}
use minigraf.Query.Matcher.{
  UuidCrate, Bindings, PatternMatcher, facts_of, SymbolKind, wildcard, variable, plain, symbol_kind,
  starts_with, keyword_to_entity_id, match_constant, match_symbol, match_component, with_hidden,
  match_attribute, match_fact_against_pattern, match_facts, match_pattern,
}
use minigraf.Query.Matcher.Sound.{HoldsOf, match_fact_against_pattern-HoldsOf}

-- A symbol stands for any value if it is a variable or a wildcard.
abbrev pub takes_any : SymbolKind → Bool
takes_any wildcard = true
takes_any variable = true
takes_any plain = false

-- The component names no variable that is bound.
abbrev pub Fresh : EdnValue → Bindings → Type 0
Fresh (EdnValue.symbol s) b = symbol_kind s ≡ variable → lookup s b ≡ none
Fresh component b = Unit {0}

-- The components are not one variable.
abbrev pub Apart : EdnValue → EdnValue → Type 0
Apart a b =
    (s : Text) → symbol_kind s ≡ variable → a ≡ EdnValue.symbol s → b ≡ EdnValue.symbol s → ⊥

Fresh-insert :
    (s : Text) (v : Value) (b : Bindings) (other : EdnValue)
    → Apart (EdnValue.symbol s) other
    → Fresh other b
    → Fresh other (insert s v b)
Fresh-insert s v b (EdnValue.symbol t) apart fresh = λ var. elim (Bool-cases (bytes_eq s t)) [
  | inl same ↦ absurd (apart t var (ap EdnValue.symbol (bytes_eq→eq s t same)) refl)
  | inr differ ↦ lookup-insert s t v b ∙ rw differ (fresh var)
]
Fresh-insert s v b other apart fresh = tt

-- A symbol that stands for any value.
abbrev pub IsOpen : Text → Type 0
IsOpen s = (s ≡ codes "_") ⊎ ((rest : Text) × (s ≡ b'?' ∷ rest))

takes_any-IsOpen : (s : Text) → IsOpen s → takes_any (symbol_kind s) ≡ true
unfolding symbol_kind
takes_any-IsOpen s (inl e) = rw e refl
takes_any-IsOpen s (inr (rest, e)) = rw e (opened (starts_with (codes "?_") (b'?' ∷ rest)))
  where
    opened : (b : Bool) → takes_any (if b then wildcard else variable) ≡ true
    opened true = refl
    opened false = refl

abbrev IsZero : ℕ → Type 0
IsZero f = (f ≡ 0) ⊎ (f ≡ 2 ^ 63)

abbrev pub FitFloat : ℕ → ℕ → Type 0
FitFloat f g = ((f ≡ g) × (is_nan f ≡ false)) ⊎ (IsZero f × IsZero g)

compare_ℤ_self : (a : ℤ) → compare_ℤ a a ≡ Ordering.eq
compare_ℤ_self (pos a) = ground arith
compare_ℤ_self (negsuc a) = ground arith

float_eq-FitFloat : (f g : ℕ) → FitFloat f g → float_eq f g ≡ true
float_eq-FitFloat f g (inl (e, h)) = rw (sym e, h, compare_ℤ_self (magnitude f)) refl
float_eq-FitFloat f g (inr (inl a, inl b)) = rw (a, b) refl
float_eq-FitFloat f g (inr (inl a, inr b)) = rw (a, b) refl
float_eq-FitFloat f g (inr (inr a, inl b)) = rw (a, b) refl
float_eq-FitFloat f g (inr (inr a, inr b)) = rw (a, b) refl

int_eq-same : (i j : ℤ) → i ≡ j → int_eq i j ≡ true
int_eq-same (pos a) (pos b) h = ground (arith, h)
int_eq-same (pos a) (negsuc b) h = cc
int_eq-same (negsuc a) (pos b) h = cc
int_eq-same (negsuc a) (negsuc b) h = ground (arith, h)

bool_eq-same : (a b : Bool) → a ≡ b → bool_eq a b ≡ true
bool_eq-same true true h = refl
bool_eq-same true false h = cc
bool_eq-same false true h = cc
bool_eq-same false false h = refl

module _ (uuid : UuidCrate) where
  -- The match of a component, but for bound variables.
  abbrev fits : EdnValue → Value → Bool
  fits (EdnValue.symbol s) v = takes_any (symbol_kind s)
  fits component v = match_constant uuid component v

  -- What a component of a pattern stands for: a symbol that is `_` or begins with `?` for any value,
  -- a constant for its own value; a keyword also for its entity, and an identifier also for the
  -- keywords of it. A float is no NaN, and the zeros are one.
  abbrev pub Fit : EdnValue → Value → Type 0
  Fit (EdnValue.symbol s) v = IsOpen s
  Fit (EdnValue.keyword k) (Value.keyword l) = k ≡ l
  Fit (EdnValue.keyword k) (Value.ref id) = keyword_to_entity_id uuid k ≡ id
  Fit (EdnValue.string s) (Value.string t) = s ≡ t
  Fit (EdnValue.integer i) (Value.integer j) = i ≡ j
  Fit (EdnValue.float f) (Value.float g) = FitFloat f g
  Fit (EdnValue.boolean a) (Value.boolean b) = a ≡ b
  Fit (EdnValue.uuid u) (Value.ref id) = u ≡ id
  Fit (EdnValue.uuid u) (Value.keyword k) = u ≡ keyword_to_entity_id uuid k
  Fit EdnValue.nil Value.null = Unit {0}
  Fit component v = ⊥

  match_constant-Fit :
      (component : EdnValue) (v : Value) → Fit component v → fits component v ≡ true
  unfolding match_constant
  match_constant-Fit (EdnValue.symbol s) v h = takes_any-IsOpen s h
  match_constant-Fit (EdnValue.keyword k) (Value.keyword l) h = (bytes_eq_iff k l).1 h
  match_constant-Fit (EdnValue.keyword k) (Value.ref id) h =
      (==_iff (keyword_to_entity_id uuid k) id).1 h
  match_constant-Fit (EdnValue.string s) (Value.string t) h = (bytes_eq_iff s t).1 h
  match_constant-Fit (EdnValue.integer i) (Value.integer j) h = int_eq-same i j h
  match_constant-Fit (EdnValue.float f) (Value.float g) h = float_eq-FitFloat f g h
  match_constant-Fit (EdnValue.boolean a) (Value.boolean b) h = bool_eq-same a b h
  match_constant-Fit (EdnValue.uuid u) (Value.ref id) h = (==_iff u id).1 h
  match_constant-Fit (EdnValue.uuid u) (Value.keyword k) h =
      (==_iff u (keyword_to_entity_id uuid k)).1 h
  match_constant-Fit EdnValue.nil Value.null h = refl
  match_constant-Fit component v h = absurd h

  -- The match goes on, and binds no other variable.
  abbrev Found : EdnValue → Value → Bindings → Type 0
  Found component v b =
      (c : Bindings) × (match_component uuid component v b ≡ some c)
      × ((other : EdnValue) → Apart component other → Fresh other b → Fresh other c)

  match_symbol-Found :
      (s : Text) (v : Value) (b : Bindings) (kind : SymbolKind)
      → symbol_kind s ≡ kind
      → takes_any kind ≡ true
      → (kind ≡ variable → lookup s b ≡ none)
      → (c : Bindings) × (match_symbol uuid s v b kind ≡ some c)
        × ((other : EdnValue) → Apart (EdnValue.symbol s) other → Fresh other b → Fresh other c)
  match_symbol-Found s v b wildcard e h fresh = (b, refl, λ other apart f. f)
  match_symbol-Found s v b variable e h fresh =
      (insert s v b, rw (fresh refl) refl, λ other apart f. Fresh-insert s v b other apart f)
  match_symbol-Found s v b plain e h fresh = cc

  match_component-Found :
      (component : EdnValue) (v : Value) (b : Bindings)
      → fits component v ≡ true
      → Fresh component b
      → Found component v b
  unfolding match_component
  match_component-Found (EdnValue.symbol s) v b h fresh =
      match_symbol-Found s v b (symbol_kind s) refl h fresh
  match_component-Found component v b h fresh = (b, rw h refl, λ other apart f. f)

  -- The fact fits the pattern, whose attribute is stored and whose variables differ.
  pub record Fits (pattern : Pattern) (fact : Fact) : Type 0 where
    pub attribute : EdnValue
    pub stored : pattern.attribute ≡ real attribute
    pub entity_fits : Fit pattern.entity (Value.ref fact.entity)
    pub attribute_fits : Fit attribute (Value.keyword fact.attribute)
    pub value_fits : Fit pattern.value fact.value
    pub entity-attribute : Apart pattern.entity attribute
    pub entity-value : Apart pattern.entity pattern.value
    pub attribute-value : Apart attribute pattern.value

  Fresh-nil : (component : EdnValue) → Fresh component []
  Fresh-nil (EdnValue.symbol s) = λ var. refl
  Fresh-nil component = tt

  match_fact-found :
      (valid_at : Value) (fact : Fact) (pattern : Pattern)
      → Fits pattern fact
      → (c : Bindings) × (match_fact_against_pattern uuid valid_at fact pattern ≡ some c)
  unfolding match_fact_against_pattern match_attribute
  match_fact-found valid_at fact pattern f =
      let (b, e₁, others₁) =
        match_component-Found pattern.entity (Value.ref fact.entity) []
          (match_constant-Fit pattern.entity (Value.ref fact.entity) f.entity_fits)
          (Fresh-nil pattern.entity) in
      let (c, e₂, others₂) =
        match_component-Found f.attribute (Value.keyword fact.attribute) b
          (match_constant-Fit f.attribute (Value.keyword fact.attribute) f.attribute_fits)
          (others₁ f.attribute f.entity-attribute (Fresh-nil f.attribute)) in
      let (d, e₃, others₃) =
        match_component-Found pattern.value fact.value c
          (match_constant-Fit pattern.value fact.value f.value_fits)
          (others₂ pattern.value f.attribute-value
            (others₁ pattern.value f.entity-value (Fresh-nil pattern.value))) in
      (with_hidden uuid fact d, rw (e₁, f.stored, e₂, e₃) refl)

  match_facts-found :
      (valid_at : Value) (pattern : Pattern) (fact : Fact) (c : Bindings) (facts : List Fact)
      → match_fact_against_pattern uuid valid_at fact pattern ≡ some c
      → IsIn fact facts
      → IsIn c (match_facts uuid valid_at pattern facts)
  unfolding match_facts
  match_facts-found valid_at pattern fact c [] e i = absurd i
  match_facts-found valid_at pattern fact c (f ∷ facts) e (inl same) = rw (sym same, e) (inl refl)
  match_facts-found valid_at pattern fact c (f ∷ facts) e (inr later) =
      pushed (match_fact_against_pattern uuid valid_at f pattern)
        (match_facts-found valid_at pattern fact c facts e later)
    where
      pushed :
          (o : Option Bindings)
          → IsIn c (match_facts uuid valid_at pattern facts)
          → IsIn c (push_some o (match_facts uuid valid_at pattern facts))
      pushed none i = i
      pushed (some d) i = inr i

  -- Every fact of the storage that fits a pattern, whose attribute is stored and whose variables
  -- differ, has an answer of `match_pattern`, under which the pattern holds of that fact: it fits
  -- where each component is `_`, a name that begins with `?`, or a constant that is the fact's, a
  -- keyword and the identifier of its entity being alike, the two zeros too, and no NaN fitting.
  pub match_pattern-found :
      (m : PatternMatcher) (pattern : Pattern) (fact : Fact)
      → IsIn fact (facts_of m.storage)
      → Fits pattern fact
      → (b : Bindings) × IsIn b (match_pattern uuid m pattern)
        × HoldsOf uuid m.valid_at_value pattern fact b
  unfolding match_pattern
  match_pattern-found m pattern fact there f =
      let (b, e) = match_fact-found m.valid_at_value fact pattern f in
      (
        b,
        match_facts-found m.valid_at_value pattern fact b (facts_of m.storage) e there,
        match_fact_against_pattern-HoldsOf uuid m.valid_at_value fact pattern b e,
      )
