-- ===== src/Query/Matcher/Sense.antt =====
-- What a pattern says of a value under bindings (src/query/datalog/matcher.rs).
use minigraf.Prelude.{
  ◌≡◌, refl, ap, ◌∙◌, ◌⊎◌, inl, inr, Bool, true, false, ◌||◌, some, [], ◌∷◌, arith, if◌then◌else◌,
  ==_iff, Bool-cases, any,
}
use minigraf.Prelude.Int.{ℤ}
use minigraf.Prelude.Text.{Text, codes, bytes_eq, bytes_eq→eq}
use minigraf.Prelude.Map.{bytes_key, lookup}
use minigraf.Graph.Value.{Value}
use minigraf.Graph.Value.Equal.{
  value_eq, canonical, value_eq-canonical, int_eq-eq, bool_eq-eq, float_eq-magnitude,
}
use minigraf.Rules.Syntax.{EdnValue}
use minigraf.Query.Matcher.{
  UuidCrate, Bindings, starts_with, is_hidden, SymbolKind, wildcard, variable, plain, symbol_kind,
  value_to_edn, keyword_to_entity_id, normalize_join_value, match_constant,
}

pub question-not_hidden : (s : Text) → starts_with (codes "?") s ≡ true → is_hidden s ≡ false
question-not_hidden [] h = cc
question-not_hidden (c ∷ s) h = ground (arith, h)

variable-not_hidden : (s : Text) → symbol_kind s ≡ variable → is_hidden s ≡ false
unfolding symbol_kind
variable-not_hidden s h = elim (Bool-cases (starts_with (codes "?") s)) [
  | inl starts ↦ question-not_hidden s starts
  | inr other ↦ absurd (
      kinds (bytes_eq s (codes "_") || starts_with (codes "?_") s) (starts_with (codes "?") s) other
        h)
]
  where
    kinds :
        (any question : Bool)
        → question ≡ false
        → (if any then wildcard else if question then variable else plain) ≡ variable
        → ⊥
    kinds any question q e = ground (arith, q, e)

module _ (uuid : UuidCrate) where
  -- The value that a binding stands for: a keyword stands for its entity, and the zeros are one.
  abbrev pub denotes : Value → Value ⊎ ℤ
  denotes v = canonical (normalize_join_value uuid v)

  pub value_eq-denotes : (a b : Value) → value_eq a b ≡ true → denotes a ≡ denotes b
  unfolding value_eq normalize_join_value
  value_eq-denotes (Value.keyword a) (Value.keyword b) h =
      ap (λ k. inl (Value.ref (keyword_to_entity_id uuid k))) (bytes_eq→eq a b h)
  value_eq-denotes (Value.string a) (Value.string b) h =
      value_eq-canonical (Value.string a) (Value.string b) h
  value_eq-denotes (Value.integer a) (Value.integer b) h =
      value_eq-canonical (Value.integer a) (Value.integer b) h
  value_eq-denotes (Value.float a) (Value.float b) h =
      value_eq-canonical (Value.float a) (Value.float b) h
  value_eq-denotes (Value.boolean a) (Value.boolean b) h =
      value_eq-canonical (Value.boolean a) (Value.boolean b) h
  value_eq-denotes (Value.ref a) (Value.ref b) h = value_eq-canonical (Value.ref a) (Value.ref b) h
  value_eq-denotes Value.null Value.null h = refl
  value_eq-denotes a b h = cc

  pub match_constant-denotes :
      (w v : Value) → match_constant uuid (value_to_edn w) v ≡ true → denotes w ≡ denotes v
  unfolding match_constant value_to_edn normalize_join_value
  match_constant-denotes (Value.string a) (Value.string b) h =
      ap (λ s. inl (Value.string s)) (bytes_eq→eq a b h)
  match_constant-denotes (Value.integer a) (Value.integer b) h =
      ap (λ n. inl (Value.integer n)) (int_eq-eq a b h)
  match_constant-denotes (Value.float a) (Value.float b) h = ap inr (float_eq-magnitude a b h)
  match_constant-denotes (Value.boolean a) (Value.boolean b) h =
      ap (λ c. inl (Value.boolean c)) (bool_eq-eq a b h)
  match_constant-denotes (Value.ref a) (Value.ref b) h =
      ap (λ i. inl (Value.ref i)) ((==_iff a b).0 h)
  match_constant-denotes (Value.ref a) (Value.keyword k) h =
      ap (λ i. inl (Value.ref i)) ((==_iff a (keyword_to_entity_id uuid k)).0 h)
  match_constant-denotes (Value.keyword k) (Value.ref b) h =
      ap (λ i. inl (Value.ref i)) ((==_iff (keyword_to_entity_id uuid k) b).0 h)
  match_constant-denotes (Value.keyword k) (Value.keyword l) h =
      ap (λ t. inl (Value.ref (keyword_to_entity_id uuid t))) (bytes_eq→eq k l h)
  match_constant-denotes Value.null Value.null h = refl
  match_constant-denotes w v h = cc

  -- The variable is bound to what the value stands for.
  abbrev pub IsBound : Bindings → Text → Value → Type 0
  IsBound b var v = (w : Value) × (lookup var b ≡ some w) × (denotes w ≡ denotes v)

  abbrev pub HoldsSymbol : Text → Value → Bindings → SymbolKind → Type 0
  HoldsSymbol var v b wildcard = Unit
  HoldsSymbol var v b variable = IsBound b var v
  HoldsSymbol var v b plain = ⊥

  -- A component of a pattern holds of a value under bindings: a wildcard of any value, a variable
  -- of what it is bound to, a constant of the values that it matches.
  abbrev pub Holds : EdnValue → Value → Bindings → Type 0
  Holds (EdnValue.symbol var) v b = HoldsSymbol var v b (symbol_kind var)
  Holds component v b = match_constant uuid component v ≡ true

  -- Every binding but the hidden keys stays, up to what it stands for.
  abbrev pub Extends : Bindings → Bindings → Type 0
  Extends b c =
      (var : Text) (w : Value) → is_hidden var ≡ false → lookup var b ≡ some w → IsBound c var w

  pub Extends-refl : (b : Bindings) → Extends b b
  Extends-refl b var w h e = (w, e, refl)

  pub Extends-trans : (b c d : Bindings) → Extends b c → Extends c d → Extends b d
  Extends-trans b c d f g var w h e =
      let (x, ex, px) = f var w h e in let (y, ey, py) = g var x h ex in (y, ey, py ∙ px)

  IsBound-Extends :
      (b c : Bindings) (var : Text) (v : Value)
      → is_hidden var ≡ false
      → Extends b c
      → IsBound b var v
      → IsBound c var v
  IsBound-Extends b c var v h f (w, e, p) = let (x, ex, px) = f var w h e in (x, ex, px ∙ p)

  HoldsSymbol-Extends :
      (var : Text) (v : Value) (b c : Bindings) (kind : SymbolKind)
      → symbol_kind var ≡ kind
      → Extends b c
      → HoldsSymbol var v b kind
      → HoldsSymbol var v c kind
  HoldsSymbol-Extends var v b c wildcard e f h = tt
  HoldsSymbol-Extends var v b c variable e f h =
      IsBound-Extends b c var v (variable-not_hidden var e) f h
  HoldsSymbol-Extends var v b c plain e f h = h

  pub Holds-Extends :
      (component : EdnValue) (v : Value) (b c : Bindings)
      → Extends b c
      → Holds component v b
      → Holds component v c
  Holds-Extends (EdnValue.symbol var) v b c f h =
      HoldsSymbol-Extends var v b c (symbol_kind var) refl f h
  Holds-Extends (EdnValue.keyword _) v b c f h = h
  Holds-Extends (EdnValue.string _) v b c f h = h
  Holds-Extends (EdnValue.integer _) v b c f h = h
  Holds-Extends (EdnValue.float _) v b c f h = h
  Holds-Extends (EdnValue.boolean _) v b c f h = h
  Holds-Extends (EdnValue.uuid _) v b c f h = h
  Holds-Extends (EdnValue.vector _) v b c f h = h
  Holds-Extends (EdnValue.list _) v b c f h = h
  Holds-Extends (EdnValue.map_of _) v b c f h = h
  Holds-Extends EdnValue.nil v b c f h = h
  Holds-Extends (EdnValue.bind_slot _) v b c f h = h
