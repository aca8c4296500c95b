-- ===== src/Query/Results/KeyValues.antt =====
-- The values of the plain variables in the rows of `compute_aggregation`
-- (src/query/datalog/executor.rs).
use minigraf.Prelude.{
  ℕ, zero, suc, ◌+◌, ◌≡◌, refl, sym, ap, ◌∙◌, ◌⊎◌, inl, inr, true, false, Option, none, some, List,
  [], ◌∷◌, arith, Bool-cases, get_elem?,
}
use mathlib.Core.Path.{subst}
use minigraf.Prelude.Options.{none-ne-some, some_injective}
use minigraf.Prelude.Text.{Text, bytes_eq, bytes_eq_iff}
use minigraf.Prelude.Map.{
  Map, IsMap, lookup, insert, contains_key, lookup-insert, insert-IsMap, lookup_absent, bytes_key,
}
use minigraf.Graph.Value.{Value}
use minigraf.Query.Matcher.{Bindings}
use minigraf.Query.Results.Specs.{FindSpec}
use minigraf.Query.Results.Groups.{variable_names}
use minigraf.Query.Results.Aggregation.{key_positions, insert_some, insert_keys}
use minigraf.Query.Results.Written.{lookup-insert_other}

not_same : (x v : Text) → bytes_eq x v ≡ false → ¬ (x ≡ v)
not_same x v other e = true_ne_false (sym ((bytes_eq_iff x v).1 e) ∙ other)
  where
    true_ne_false : ¬ (true ≡ false)
    true_ne_false d = cc

lookup-insert_some_other :
    (x v : Text) (o : Option Value) (b : Bindings)
    → ¬ (x ≡ v)
    → lookup v (insert_some x o b) ≡ lookup v b
lookup-insert_some_other x v none b other = refl
lookup-insert_some_other x v (some w) b other = lookup-insert_other x v w b other

lookup-insert_some_same :
    (v : Text) (o : Option Value) (b : Bindings)
    → lookup v b ≡ none
    → lookup v (insert_some v o b) ≡ o
lookup-insert_some_same v none b absent = absent
lookup-insert_some_same v (some w) b absent =
    lookup-insert v v w b ∙ rw ((bytes_eq_iff v v).1 refl) refl

-- A name without a position is left alone.
lookup-insert_keys_other :
    (v : Text) (key : List Value) (positions : Map Text ℕ) (b : Bindings)
    → lookup v positions ≡ none
    → lookup v (insert_keys key positions b) ≡ lookup v b
unfolding insert_keys
lookup-insert_keys_other v key [] b h = refl
lookup-insert_keys_other v key ((x, n) ∷ positions) b h = elim (Bool-cases (bytes_eq x v)) [
  | inl same ↦ absurd (none-ne-some (sym (rw same at h)))
  | inr other ↦
      lookup-insert_keys_other v key positions (insert_some x (get_elem? key n) b) (rw other at h)
      ∙ lookup-insert_some_other x v (get_elem? key n) b (not_same x v other)
]

-- A name with a position takes the value of the key there.
lookup-insert_keys :
    (v : Text) (key : List Value) (positions : Map Text ℕ) (n : ℕ) (b : Bindings)
    → IsMap positions
    → lookup v positions ≡ some n
    → lookup v b ≡ none
    → lookup v (insert_keys key positions b) ≡ get_elem? key n
unfolding insert_keys
lookup-insert_keys v key [] n b is_map h absent = absurd (none-ne-some h)
lookup-insert_keys v key ((x, m) ∷ positions) n b (single, is_map) h absent =
    elim (Bool-cases (bytes_eq x v)) [
      | inl e ↦
          let same : x ≡ v = (bytes_eq_iff x v).0 e in
          lookup-insert_keys_other v key positions (insert_some x (get_elem? key m) b)
            (lookup_absent v positions (subst (λ t. contains_key t positions ≡ false) same single))
          ∙ subst (λ t. lookup v (insert_some t (get_elem? key m) b) ≡ get_elem? key m) (sym same)
              (lookup-insert_some_same v (get_elem? key m) b absent)
          ∙ ap (get_elem? key) (some_injective (rw e at h))
      | inr other ↦
          lookup-insert_keys v key positions n (insert_some x (get_elem? key m) b) is_map
            (rw other at h)
            (lookup-insert_some_other x v (get_elem? key m) b (not_same x v other) ∙ absent)
    ]

key_positions-IsMap :
    (n : ℕ) (specs : List FindSpec) (positions : Map Text ℕ)
    → IsMap positions
    → IsMap (key_positions n specs positions)
unfolding key_positions
key_positions-IsMap n [] positions h = h
key_positions-IsMap n (FindSpec.variable v ∷ specs) positions h =
    key_positions-IsMap (n + 1) specs (insert v n positions) (insert-IsMap v n positions h)
key_positions-IsMap n (FindSpec.aggregate func var ∷ specs) positions h =
    key_positions-IsMap n specs positions h
key_positions-IsMap n (FindSpec.window ws ∷ specs) positions h =
    key_positions-IsMap n specs positions h

-- The name stands at the position, counted from the given number, of the names.
abbrev NamedAt : ℕ → ℕ → Text → List Text → Type 0
NamedAt n m v names = (k : ℕ) × (m ≡ n + k) × (get_elem? names k ≡ some v)

NamedAt-later :
    (n m : ℕ) (v w : Text) (names : List Text)
    → NamedAt (n + 1) m v names
    → NamedAt n m v (w ∷ names)
NamedAt-later n m v w names (k, e, got) = (suc k, omega (arith, e), got)

-- Where a name has a position, one of its occurrences stands there.
key_positions-NamedAt :
    (n m : ℕ) (v : Text) (specs : List FindSpec) (positions : Map Text ℕ)
    → lookup v (key_positions n specs positions) ≡ some m
    → NamedAt n m v (variable_names specs) ⊎ (lookup v positions ≡ some m)
unfolding key_positions variable_names
key_positions-NamedAt n m v [] positions h = inr h
key_positions-NamedAt n m v (FindSpec.variable w ∷ specs) positions h =
    placed (key_positions-NamedAt (n + 1) m v specs (insert w n positions) h)
  where
    placed :
        NamedAt (n + 1) m v (variable_names specs) ⊎ (lookup v (insert w n positions) ≡ some m)
        → NamedAt n m v (w ∷ variable_names specs) ⊎ (lookup v positions ≡ some m)
    placed (inl later) = inl (NamedAt-later n m v w (variable_names specs) later)
    placed (inr here) = elim (Bool-cases (bytes_eq w v)) [
      | inl same ↦
          let m_is_n : n ≡ m =
            some_injective (rw same at (sym (lookup-insert w v n positions) ∙ here)) in
          inl (0, omega (arith, m_is_n), ap some ((bytes_eq_iff w v).0 same))
      | inr other ↦ inr (rw other at (sym (lookup-insert w v n positions) ∙ here))
    ]
key_positions-NamedAt n m v (FindSpec.aggregate func var ∷ specs) positions h =
    key_positions-NamedAt n m v specs positions h
key_positions-NamedAt n m v (FindSpec.window ws ∷ specs) positions h =
    key_positions-NamedAt n m v specs positions h

abbrev HasPosition : Text → Map Text ℕ → Type 0
HasPosition v positions = (m : ℕ) × (lookup v positions ≡ some m)

HasPosition-insert :
    (w v : Text) (n : ℕ) (positions : Map Text ℕ)
    → (w ≡ v) ⊎ HasPosition v positions
    → HasPosition v (insert w n positions)
HasPosition-insert w v n positions h = elim (Bool-cases (bytes_eq w v)) [
  | inl same ↦ (n, lookup-insert w v n positions ∙ rw same refl)
  | inr other ↦ before other h
]
  where
    before :
        bytes_eq w v ≡ false
        → (w ≡ v) ⊎ HasPosition v positions
        → HasPosition v (insert w n positions)
    before other (inl e) = absurd (not_same w v other e)
    before other (inr (m, got)) = (m, lookup-insert w v n positions ∙ rw other got)

-- Every plain variable has a position.
key_positions-HasPosition :
    (n k : ℕ) (v : Text) (specs : List FindSpec) (positions : Map Text ℕ)
    → (get_elem? (variable_names specs) k ≡ some v) ⊎ HasPosition v positions
    → HasPosition v (key_positions n specs positions)
unfolding key_positions variable_names
key_positions-HasPosition n k v [] positions (inl h) = absurd (none-ne-some h)
key_positions-HasPosition n k v [] positions (inr h) = h
key_positions-HasPosition n zero v (FindSpec.variable w ∷ specs) positions (inl h) =
    key_positions-HasPosition (n + 1) 0 v specs (insert w n positions)
      (inr (HasPosition-insert w v n positions (inl (some_injective h))))
key_positions-HasPosition n (suc k) v (FindSpec.variable w ∷ specs) positions (inl h) =
    key_positions-HasPosition (n + 1) k v specs (insert w n positions) (inl h)
key_positions-HasPosition n k v (FindSpec.variable w ∷ specs) positions (inr h) =
    key_positions-HasPosition (n + 1) k v specs (insert w n positions)
      (inr (HasPosition-insert w v n positions (inr h)))
key_positions-HasPosition n k v (FindSpec.aggregate func var ∷ specs) positions h =
    key_positions-HasPosition n k v specs positions h
key_positions-HasPosition n k v (FindSpec.window ws ∷ specs) positions h =
    key_positions-HasPosition n k v specs positions h

-- The value that the key of the group has at an occurrence of the variable.
abbrev pub TakesKey : List FindSpec → List Value → Text → Option Value → Type 0
TakesKey specs key v value =
    (m : ℕ) × (get_elem? (variable_names specs) m ≡ some v) × (value ≡ get_elem? key m)

pub insert_keys-TakesKey :
    (specs : List FindSpec) (key : List Value) (k : ℕ) (v : Text)
    → get_elem? (variable_names specs) k ≡ some v
    → TakesKey specs key v (lookup v (insert_keys key (key_positions 0 specs []) []))
insert_keys-TakesKey specs key k v h =
    let positions = key_positions 0 specs [] in
    let (m, got) = key_positions-HasPosition 0 k v specs [] (inl h) in
    named (key_positions-NamedAt 0 m v specs [] got)
      (lookup-insert_keys v key positions m [] (key_positions-IsMap 0 specs [] tt) got refl)
  where
    named :
        {m : ℕ}
        → NamedAt 0 m v (variable_names specs) ⊎ (lookup v [] ≡ some m)
        → lookup v (insert_keys key (key_positions 0 specs []) []) ≡ get_elem? key m
        → TakesKey specs key v (lookup v (insert_keys key (key_positions 0 specs []) []))
    named (inl (j, e, got)) taken = (j, got, taken ∙ ap (get_elem? key) (omega (arith, e)))
    named (inr none_at) taken = absurd (none-ne-some none_at)
