-- ===== src/Query/Matcher/Sound.antt =====
-- What a match binds: a pattern holds of a fact under the bindings that it answers
-- (src/query/datalog/matcher.rs).
use minigraf.Prelude.{
  ◌≡◌, refl, sym, ap, ◌∙◌, inl, inr, Bool, true, false, Option, none, some, [], ◌++◌, if◌then◌else◌,
  Bool-cases,
}
use mathlib.Core.Path.{subst}
use minigraf.Prelude.Options.{some-of_bind, none-ne-some}
use minigraf.Prelude.Text.{Text, bytes_eq, bytes_eq→eq, bytes_eq_refl}
use minigraf.Prelude.Map.{bytes_key, lookup, insert, lookup-insert}
use minigraf.Graph.Value.{Value}
use minigraf.Graph.Value.Equal.{value_eq}
use minigraf.Graph.Fact.{Fact}
use minigraf.Rules.Syntax.{EdnValue, AttributeSpec, real, pseudo, Pattern}
use minigraf.Query.Matcher.{
  UuidCrate, Bindings, valid_from_key, valid_to_key, tx_count_key, tx_id_key, cast_signed,
  is_hidden, SymbolKind, wildcard, variable, plain, symbol_kind, match_component, matched_variable,
  match_symbol, with_hidden, pseudo_value, match_attribute, match_fact_against_pattern,
}
use minigraf.Query.Matcher.Sense.{
  value_eq-denotes, IsBound, HoldsSymbol, Holds, Extends, Extends-refl, Extends-trans,
  Holds-Extends,
}

module _ (uuid : UuidCrate) where
  lookup-insert_if :
      (test : Bool) (b : Bindings) (other var : Text) (v w : Value)
      → bytes_eq var other ≡ test
      → (test ≡ true → ⊥)
      → lookup other b ≡ some w
      → lookup other (insert var v b) ≡ some w
  lookup-insert_if true b other var v w t clash e = absurd (clash refl)
  lookup-insert_if false b other var v w t clash e = lookup-insert var other v b ∙ rw t e

  -- A new variable, or a hidden key, leaves the others.
  pub Extends-insert_new :
      (b : Bindings) (var : Text) (v : Value)
      → lookup var b ≡ none
      → Extends uuid b (insert var v b)
  Extends-insert_new b var v fresh other w h e =
      (w, lookup-insert_if (bytes_eq var other) b other var v w refl clash e, refl)
    where
      clash : bytes_eq var other ≡ true → ⊥
      clash t = none-ne-some (sym fresh ∙ ap (λ k. lookup k b) (bytes_eq→eq var other t) ∙ e)

  pub Extends-insert_hidden :
      (b : Bindings) (key : Text) (v : Value)
      → is_hidden key ≡ true
      → Extends uuid b (insert key v b)
  Extends-insert_hidden b key v hidden other w h e =
      (w, lookup-insert_if (bytes_eq key other) b other key v w refl clash e, refl)
    where
      clash : bytes_eq key other ≡ true → ⊥
      clash t = absurd (true_false (sym hidden ∙ ap is_hidden (bytes_eq→eq key other t) ∙ h))
        where
          true_false : true ≡ false → ⊥
          true_false e = cc

  IsBound-insert : (b : Bindings) (var : Text) (v : Value) → IsBound uuid (insert var v b) var v
  IsBound-insert b var v = (v, lookup-insert var var v b ∙ rw (bytes_eq_refl var) refl, refl)

  matched_variable-Holds :
      (var : Text) (v : Value) (b c : Bindings) (found : Option Value)
      → lookup var b ≡ found
      → matched_variable uuid var v b found ≡ some c
      → Extends uuid b c × IsBound uuid c var v
  matched_variable-Holds var v b c none e h =
      let same : insert var v b ≡ c = cc h in
      rw (sym same) (Extends-insert_new b var v e, IsBound-insert b var v)
  matched_variable-Holds var v b c (some existing) e h = elim (Bool-cases (value_eq existing v)) [
    | inl equal ↦
        let same : b ≡ c = cc (rw equal at h) in
        rw (sym same) (Extends-refl uuid b, (existing, e, value_eq-denotes uuid existing v equal))
    | inr differs ↦ absurd (none-ne-some (rw differs at h))
  ]

  match_symbol-Holds :
      (var : Text) (v : Value) (b c : Bindings) (kind : SymbolKind)
      → match_symbol uuid var v b kind ≡ some c
      → Extends uuid b c × HoldsSymbol uuid var v c kind
  match_symbol-Holds var v b c wildcard h =
      let same : b ≡ c = cc h in rw (sym same) (Extends-refl uuid b, tt)
  match_symbol-Holds var v b c variable h = matched_variable-Holds var v b c (lookup var b) refl h
  match_symbol-Holds var v b c plain h = cc

  constant-Holds :
      (test : Bool) (b c : Bindings)
      → (if test then some b else none) ≡ some c
      → Extends uuid b c × (test ≡ true)
  constant-Holds true b c h = let same : b ≡ c = cc h in rw (sym same) (Extends-refl uuid b, refl)
  constant-Holds false b c h = cc

  pub match_component-Holds :
      (component : EdnValue) (v : Value) (b c : Bindings)
      → match_component uuid component v b ≡ some c
      → Extends uuid b c × Holds uuid component v c
  unfolding match_component
  match_component-Holds (EdnValue.symbol var) v b c h =
      match_symbol-Holds var v b c (symbol_kind var) h
  match_component-Holds (EdnValue.keyword _) v b c h = constant-Holds _ b c h
  match_component-Holds (EdnValue.string _) v b c h = constant-Holds _ b c h
  match_component-Holds (EdnValue.integer _) v b c h = constant-Holds _ b c h
  match_component-Holds (EdnValue.float _) v b c h = constant-Holds _ b c h
  match_component-Holds (EdnValue.boolean _) v b c h = constant-Holds _ b c h
  match_component-Holds (EdnValue.uuid _) v b c h = constant-Holds _ b c h
  match_component-Holds (EdnValue.vector _) v b c h = constant-Holds _ b c h
  match_component-Holds (EdnValue.list _) v b c h = constant-Holds _ b c h
  match_component-Holds (EdnValue.map_of _) v b c h = constant-Holds _ b c h
  match_component-Holds EdnValue.nil v b c h = constant-Holds _ b c h
  match_component-Holds (EdnValue.bind_slot _) v b c h = constant-Holds _ b c h

  pub with_hidden-Extends : (fact : Fact) (b : Bindings) → Extends uuid b (with_hidden uuid fact b)
  unfolding with_hidden
  with_hidden-Extends fact b =
      let eid : Text = uuid.to_string fact.entity in
      let b₁ : Bindings = insert (valid_from_key ++ eid) (Value.integer fact.valid_from) b in
      let b₂ : Bindings = insert (valid_to_key ++ eid) (Value.integer fact.valid_to) b₁ in
      let b₃ : Bindings =
        insert (tx_count_key ++ eid) (Value.integer (cast_signed fact.tx_count)) b₂ in
      Extends-trans uuid b b₁ (with_hidden uuid fact b)
        (Extends-insert_hidden b (valid_from_key ++ eid) (Value.integer fact.valid_from) refl)
        (Extends-trans uuid b₁ b₂ (with_hidden uuid fact b)
          (Extends-insert_hidden b₁ (valid_to_key ++ eid) (Value.integer fact.valid_to) refl)
          (Extends-trans uuid b₂ b₃ (with_hidden uuid fact b)
            (Extends-insert_hidden b₂ (tx_count_key ++ eid)
              (Value.integer (cast_signed fact.tx_count)) refl)
            (Extends-insert_hidden b₃ (tx_id_key ++ eid) (Value.integer (cast_signed fact.tx_id))
              refl)))

  -- An attribute and a value of a pattern hold of a fact.
  abbrev pub HoldsAttribute : Value → Fact → AttributeSpec → EdnValue → Bindings → Type 0
  HoldsAttribute valid_at fact (real edn) value b =
      Holds uuid edn (Value.keyword fact.attribute) b × Holds uuid value fact.value b
  HoldsAttribute valid_at fact (pseudo p) value b =
      Holds uuid value (pseudo_value uuid valid_at fact p) b

  -- A pattern holds of a fact under bindings.
  abbrev pub HoldsOf : Value → Pattern → Fact → Bindings → Type 0
  HoldsOf valid_at pattern fact b =
      Holds uuid pattern.entity (Value.ref fact.entity) b
      × HoldsAttribute valid_at fact pattern.attribute pattern.value b

  match_attribute-Holds :
      (valid_at : Value) (fact : Fact) (attribute : AttributeSpec) (value : EdnValue)
      → (b c : Bindings) → match_attribute uuid valid_at fact attribute value b ≡ some c
      → Extends uuid b c × HoldsAttribute valid_at fact attribute value c
  unfolding match_attribute
  match_attribute-Holds valid_at fact (pseudo p) value b c h =
      match_component-Holds value (pseudo_value uuid valid_at fact p) b c h
  match_attribute-Holds valid_at fact (real edn) value b c h =
      let (d, e₁, more₁) =
        some-of_bind (match_component uuid edn (Value.keyword fact.attribute) b) _ h in
      let (f, e₂, more₂) = some-of_bind (match_component uuid value fact.value d) _ more₁ in
      let (x₁, a) = match_component-Holds edn (Value.keyword fact.attribute) b d e₁ in
      let (x₂, v) = match_component-Holds value fact.value d f e₂ in
      let same : with_hidden uuid fact f ≡ c = cc more₂ in
      let x₃ : Extends uuid f c = subst (Extends uuid f) same (with_hidden-Extends fact f) in
      let rest : Extends uuid d c = Extends-trans uuid d f c x₂ x₃ in
      (
        Extends-trans uuid b d c x₁ rest,
        (Holds-Extends uuid edn _ d c rest a, Holds-Extends uuid value _ f c x₃ v),
      )

  -- A match answers bindings under which the pattern holds of the fact.
  pub match_fact_against_pattern-HoldsOf :
      (valid_at : Value) (fact : Fact) (pattern : Pattern) (c : Bindings)
      → match_fact_against_pattern uuid valid_at fact pattern ≡ some c
      → HoldsOf valid_at pattern fact c
  unfolding match_fact_against_pattern
  match_fact_against_pattern-HoldsOf valid_at fact pattern c h =
      let (b, e, more) =
        some-of_bind (match_component uuid pattern.entity (Value.ref fact.entity) []) _ h in
      let (x, entity) = match_component-Holds pattern.entity (Value.ref fact.entity) [] b e in
      let (y, attribute) =
        match_attribute-Holds valid_at fact pattern.attribute pattern.value b c more in
      (Holds-Extends uuid pattern.entity _ b c y entity, attribute)
