-- ===== src/Query/Matcher/Applied.antt =====
-- A pattern with the bindings of a row put in (src/query/datalog/matcher.rs).
use minigraf.Prelude.{
  ◌≡◌, refl, ◌∙◌, inl, inr, Bool, true, false, ◌||◌, Option, none, some, if◌then◌else◌, Bool-cases,
}
use minigraf.Prelude.Text.{Text, codes, bytes_eq}
use minigraf.Prelude.Map.{bytes_key, lookup}
use minigraf.Graph.Value.{Value}
use minigraf.Graph.Fact.{Fact}
use minigraf.Rules.Syntax.{EdnValue, AttributeSpec, real, pseudo, Pattern}
use minigraf.Query.Matcher.{
  UuidCrate, Bindings, starts_with, wildcard, variable, plain, symbol_kind, variable_of,
  value_to_edn, bound_or, applied_attribute, apply_binding_to_component, apply_bindings_to_pattern,
}
use minigraf.Query.Matcher.Sound.{HoldsAttribute, HoldsOf}
use minigraf.Query.Matcher.Sense.{
  question-not_hidden, HoldsSymbol, denotes, match_constant-denotes, Holds, IsBound, Extends,
  Holds-Extends,
}

-- The patterns whose attribute is stored, not a pseudo-attribute.
abbrev pub IsReal : AttributeSpec → Type 0
IsReal (real edn) = Unit {0}
IsReal (pseudo p) = ⊥

module _ (uuid : UuidCrate) where
  kind-HoldsSymbol :
      (any question : Bool) (var : Text) (v : Value) (c : Bindings)
      → question ≡ true
      → IsBound uuid c var v
      → HoldsSymbol uuid var v c (if any then wildcard else if question then variable else plain)
  kind-HoldsSymbol true question var v c q b = tt
  kind-HoldsSymbol false true var v c q b = b
  kind-HoldsSymbol false false var v c q b = cc

  constant-denotes :
      (w v : Value) (b : Bindings)
      → Holds uuid (value_to_edn w) v b
      → denotes uuid w ≡ denotes uuid v
  unfolding value_to_edn
  constant-denotes (Value.string x) v b h = match_constant-denotes uuid (Value.string x) v h
  constant-denotes (Value.integer x) v b h = match_constant-denotes uuid (Value.integer x) v h
  constant-denotes (Value.float x) v b h = match_constant-denotes uuid (Value.float x) v h
  constant-denotes (Value.boolean x) v b h = match_constant-denotes uuid (Value.boolean x) v h
  constant-denotes (Value.ref x) v b h = match_constant-denotes uuid (Value.ref x) v h
  constant-denotes (Value.keyword x) v b h = match_constant-denotes uuid (Value.keyword x) v h
  constant-denotes Value.null v b h = match_constant-denotes uuid Value.null v h

  -- A variable with its binding put in.
  HoldsSymbol-apply :
      (var : Text) (v : Value) (existing added c : Bindings) (found : Option Value)
      → starts_with (codes "?") var ≡ true
      → lookup var existing ≡ found
      → Extends uuid existing c
      → Extends uuid added c
      → Holds uuid (bound_or (EdnValue.symbol var) found) v added
      → Holds uuid (EdnValue.symbol var) v c
  unfolding symbol_kind
  HoldsSymbol-apply var v existing added c none q e f g h =
      Holds-Extends uuid (EdnValue.symbol var) v added c g h
  HoldsSymbol-apply var v existing added c (some w) q e f g h =
      let (x, ex, px) = f var w (question-not_hidden var q) e in
      kind-HoldsSymbol (bytes_eq var (codes "_") || starts_with (codes "?_") var)
        (starts_with (codes "?") var) var v c q (x, ex, px ∙ constant-denotes w v added h)

  -- A component with the bindings put in holds of a value: then it holds under bindings that
  -- extend them.
  Holds-apply :
      (component : EdnValue) (v : Value) (existing added c : Bindings)
      → Extends uuid existing c
      → Extends uuid added c
      → Holds uuid (apply_binding_to_component component existing) v added
      → Holds uuid component v c
  unfolding apply_binding_to_component variable_of
  Holds-apply (EdnValue.symbol var) v existing added c f g h =
      elim (Bool-cases (starts_with (codes "?") var)) [
        | inl q ↦
            HoldsSymbol-apply var v existing added c (lookup var existing) q refl f g (rw q at h)
        | inr other ↦ Holds-Extends uuid (EdnValue.symbol var) v added c g (rw other at h)
      ]
  Holds-apply (EdnValue.keyword x) v existing added c f g h =
      Holds-Extends uuid (EdnValue.keyword x) v added c g h
  Holds-apply (EdnValue.string x) v existing added c f g h =
      Holds-Extends uuid (EdnValue.string x) v added c g h
  Holds-apply (EdnValue.integer x) v existing added c f g h =
      Holds-Extends uuid (EdnValue.integer x) v added c g h
  Holds-apply (EdnValue.float x) v existing added c f g h =
      Holds-Extends uuid (EdnValue.float x) v added c g h
  Holds-apply (EdnValue.boolean x) v existing added c f g h =
      Holds-Extends uuid (EdnValue.boolean x) v added c g h
  Holds-apply (EdnValue.uuid x) v existing added c f g h =
      Holds-Extends uuid (EdnValue.uuid x) v added c g h
  Holds-apply (EdnValue.vector x) v existing added c f g h =
      Holds-Extends uuid (EdnValue.vector x) v added c g h
  Holds-apply (EdnValue.list x) v existing added c f g h =
      Holds-Extends uuid (EdnValue.list x) v added c g h
  Holds-apply (EdnValue.map_of x) v existing added c f g h =
      Holds-Extends uuid (EdnValue.map_of x) v added c g h
  Holds-apply EdnValue.nil v existing added c f g h = Holds-Extends uuid EdnValue.nil v added c g h
  Holds-apply (EdnValue.bind_slot x) v existing added c f g h =
      Holds-Extends uuid (EdnValue.bind_slot x) v added c g h

  HoldsAttribute-apply :
      (valid_at : Value) (fact : Fact) (value : EdnValue) (existing added c : Bindings)
      → (attribute : AttributeSpec) → IsReal attribute
      → Extends uuid existing c
      → Extends uuid added c
      → HoldsAttribute uuid valid_at fact
          (applied_attribute attribute existing)
          (apply_binding_to_component value existing)
          added
      → HoldsAttribute uuid valid_at fact attribute value c
  HoldsAttribute-apply valid_at fact value existing added c (real edn) r f g (a, h) = (
    Holds-apply edn (Value.keyword fact.attribute) existing added c f g a,
    Holds-apply value fact.value existing added c f g h,
  )
  HoldsAttribute-apply valid_at fact value existing added c (pseudo p) r f g h = absurd r

  pub HoldsOf-apply :
      (valid_at : Value) (pattern : Pattern) (fact : Fact) (existing added c : Bindings)
      → IsReal pattern.attribute
      → Extends uuid existing c
      → Extends uuid added c
      → HoldsOf uuid valid_at (apply_bindings_to_pattern pattern existing) fact added
      → HoldsOf uuid valid_at pattern fact c
  unfolding apply_bindings_to_pattern
  HoldsOf-apply valid_at pattern fact existing added c r f g (entity, rest) = (
    Holds-apply pattern.entity (Value.ref fact.entity) existing added c f g entity,
    HoldsAttribute-apply valid_at fact pattern.value existing added c pattern.attribute r f g rest,
  )
