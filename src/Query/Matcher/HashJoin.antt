-- ===== src/Query/Matcher/HashJoin.antt =====
-- The hash join finds what the nested loop over all candidates finds
-- (src/query/datalog/matcher.rs).
use minigraf.Prelude.{
  ◌≡◌, refl, sym, ap, ap₂, ◌∙◌, inl, inr, Bool, true, false, Option, none, some, List, [], ◌∷◌,
  ◌++◌, append-nil, append_assoc, if◌then◌else◌, Bool-cases, All, keep,
}
use mathlib.Core.Path.{subst}
use minigraf.Prelude.Options.{◌>>=◌, push_some, none-ne-some, some_injective}
use minigraf.Prelude.Text.{Text, bytes_eq, bytes_eq→eq}
use minigraf.Prelude.Map.{bytes_key, lookup, insert, lookup-insert}
use minigraf.Graph.Value.{Value}
use minigraf.Graph.Value.Equal.{value_eq, value_eq_symm, value_eq_left, value_eq_right}
use minigraf.Rules.Syntax.{Pattern}
use minigraf.Query.Matcher.{
  UuidCrate, Bindings, PatternMatcher, is_hidden, normalize_join_value, match_pattern,
}
use minigraf.Query.Matcher.Join.{
  BuildSide, add_to_side, find_side, side_with, build_side, merged_at, merged_with, merge,
  merge_each, flat_map, probe, joined_by,
}

find_side-add_to_side :
    (k key : Value) (b : Bindings) (side : BuildSide)
    → find_side key (add_to_side k b side)
      ≡ find_side key side ++ (if value_eq k key then b ∷ [] else [])
unfolding find_side add_to_side
find_side-add_to_side k key b [] = elim (Bool-cases (value_eq k key)) [
  | inl same ↦ rw same refl
  | inr other ↦ rw other refl
]
find_side-add_to_side k key b ((j, bs) ∷ side) = elim (Bool-cases (value_eq k key)) [
  | inl same ↦ elim (Bool-cases (value_eq j k)) [
    | inl here ↦ rw (here, sym (value_eq_right k key same j) ∙ here, same) refl
    | inr there ↦
        rw (there, sym (value_eq_right k key same j) ∙ there) (find_side-add_to_side k key b side)
  ]
  | inr other ↦ elim (Bool-cases (value_eq j k)) [
    | inl here ↦ rw (here, value_eq_left j k here key ∙ other, other) (sym (append-nil _))
    | inr there ↦ elim (Bool-cases (value_eq j key)) [
      | inl found ↦ rw (there, found, other) (sym (append-nil bs))
      | inr missed ↦ rw (there, missed) (find_side-add_to_side k key b side)
    ]
  ]
]

module _ (uuid : UuidCrate) (var : Text) where
  -- The candidate has the join key.
  abbrev has_key : Value → Option Value → Bool
  has_key key none = false
  has_key key (some v) = value_eq (normalize_join_value uuid v) key

  abbrev with_key : Value → List Bindings → List Bindings
  with_key key cs = keep (λ c. has_key key (lookup var c)) cs

  find_side-side_with :
      (key : Value) (b : Bindings) (side : BuildSide) (o : Option Value)
      → find_side key (side_with uuid b side o)
        ≡ find_side key side ++ (if has_key key o then b ∷ [] else [])
  find_side-side_with key b side none = sym (append-nil (find_side key side))
  find_side-side_with key b side (some v) =
      find_side-add_to_side (normalize_join_value uuid v) key b side

  find_side-build_side :
      (key : Value) (cs : List Bindings) (side : BuildSide)
      → find_side key (build_side uuid var cs side) ≡ find_side key side ++ with_key key cs
  unfolding build_side
  find_side-build_side key [] side = sym (append-nil (find_side key side))
  find_side-build_side key (c ∷ cs) side =
      find_side-build_side key cs (side_with uuid c side (lookup var c))
      ∙ ap (λ r. r ++ with_key key cs) (find_side-side_with key c side (lookup var c))
      ∙ append_assoc (find_side key side) (if has_key key (lookup var c) then c ∷ [] else [])
          (with_key key cs)
      ∙ ap (λ r. find_side key side ++ r) (first (has_key key (lookup var c)))
    where
      first :
          (b : Bool)
          → (if b then c ∷ [] else []) ++ with_key key cs
            ≡ (if b then c ∷ with_key key cs else with_key key cs)
      first true = refl
      first false = refl

  -- A candidate with another key does not merge.
  lookup-insert_other :
      (k : Text) (x w : Value) (b : Bindings)
      → bytes_eq k var ≡ false
      → lookup var b ≡ some w
      → lookup var (insert k x b) ≡ some w
  lookup-insert_other k x w b other e = lookup-insert k var x b ∙ rw other e

  lookup-merged_at :
      (k : Text) (x w : Value) (merged more : Bindings) (o : Option Value)
      → bytes_eq k var ≡ false
      → lookup var merged ≡ some w
      → merged_at uuid k x merged o ≡ some more
      → lookup var more ≡ some w
  lookup-merged_at k x w merged more none other e h =
      subst (λ b. lookup var b ≡ some w) (some_injective h)
        (lookup-insert_other k x w merged other e)
  lookup-merged_at k x w merged more (some y) other e h =
      kept (value_eq (normalize_join_value uuid y) (normalize_join_value uuid x)) h
    where
      kept : (b : Bool) → (if b then some merged else none) ≡ some more → lookup var more ≡ some w
      kept true g = subst (λ b. lookup var b ≡ some w) (some_injective g) e
      kept false g = absurd (none-ne-some g)

  lookup-merged_with :
      (k : Text) (x w : Value) (merged more : Bindings)
      → bytes_eq k var ≡ false
      → lookup var merged ≡ some w
      → merged_with uuid k x merged ≡ some more
      → lookup var more ≡ some w
  lookup-merged_with k x w merged more other e h = elim (Bool-cases (is_hidden k)) [
    | inl hidden ↦
        subst (λ b. lookup var b ≡ some w) (some_injective (rw hidden at h))
          (lookup-insert_other k x w merged other e)
    | inr shown ↦ lookup-merged_at k x w merged more (lookup k merged) other e (rw shown at h)
  ]

  merge-none :
      (merged c : Bindings) (w v : Value)
      → is_hidden var ≡ false
      → value_eq (normalize_join_value uuid w) (normalize_join_value uuid v) ≡ false
      → lookup var merged ≡ some w
      → lookup var c ≡ some v
      → merge uuid merged c ≡ none
  unfolding merge
  merge-none merged [] w v shown differ e f = absurd (none-ne-some f)
  merge-none merged ((k, x) ∷ c) w v shown differ e f = elim (Bool-cases (bytes_eq k var)) [
    | inl same ↦
        let kv : k ≡ var = bytes_eq→eq k var same in
        let xv : x ≡ v = some_injective (rw same at f) in rw (kv, shown, e, xv, differ) refl
    | inr other ↦
        next other (rw other at f) (merged_with uuid k x merged)
          (λ more h. lookup-merged_with k x w merged more other e h)
          (λ more g. merge-none more c w v shown differ g (rw other at f))
  ]
    where
      next :
          bytes_eq k var ≡ false
          → lookup var c ≡ some v
          → (o : Option Bindings) → ((more : Bindings) → o ≡ some more → lookup var more ≡ some w)
          → ((more : Bindings) → lookup var more ≡ some w → merge uuid more c ≡ none)
          → (o >>= λ more. merge uuid more c) ≡ none
      next other f none g h = refl
      next other f (some more) g h = h more (g more refl)

  -- The rows and the candidates bind the variable.
  abbrev pub Binds : Bindings → Type 0
  Binds b = (v : Value) × (lookup var b ≡ some v)

  merge_each-with_key :
      (row : Bindings) (w : Value) (cs : List Bindings)
      → is_hidden var ≡ false
      → lookup var row ≡ some w
      → All Binds cs
      → merge_each uuid row (with_key (normalize_join_value uuid w) cs) ≡ merge_each uuid row cs
  unfolding merge_each
  merge_each-with_key row w [] shown e all = refl
  merge_each-with_key row w (c ∷ cs) shown e ((v, f), all) =
      elim (Bool-cases (value_eq (normalize_join_value uuid v) (normalize_join_value uuid w))) [
        | inl same ↦
            rw (f, same)
              (ap (push_some (merge uuid row c)) (merge_each-with_key row w cs shown e all))
        | inr other ↦
            rw (f, other, merge-none row c w v shown (swapped other) e f)
              (merge_each-with_key row w cs shown e all)
      ]
    where
      swapped :
          value_eq (normalize_join_value uuid v) (normalize_join_value uuid w) ≡ false
          → value_eq (normalize_join_value uuid w) (normalize_join_value uuid v) ≡ false
      swapped other =
          elim (Bool-cases (value_eq (normalize_join_value uuid w) (normalize_join_value uuid v))) [
            | inl same ↦ absurd (clash (sym (value_eq_symm _ _ same) ∙ other))
            | inr differ ↦ differ
          ]
        where
          clash : true ≡ false → ⊥
          clash h = cc

  flat_map-agree :
      (f g : Bindings → List Bindings) (rows : List Bindings)
      → ((row : Bindings) → Binds row → f row ≡ g row)
      → All Binds rows
      → flat_map f rows ≡ flat_map g rows
  flat_map-agree f g [] h all = refl
  flat_map-agree f g (row ∷ rows) h (b, all) =
      ap₂ (λ x y. x ++ y) (h row b) (flat_map-agree f g rows h all)

  -- Where all rows and all candidates bind the join variable, the hash join answers what merging
  -- each row with each candidate answers, in the same order.
  pub joined_by-merge_each :
      (m : PatternMatcher) (pattern : Pattern) (rows : List Bindings)
      → is_hidden var ≡ false
      → All Binds rows
      → All Binds (match_pattern uuid m pattern)
      → joined_by uuid m pattern rows (some var)
        ≡ flat_map (λ row. merge_each uuid row (match_pattern uuid m pattern)) rows
  unfolding find_side
  joined_by-merge_each m pattern rows shown all candidates =
      flat_map-agree _ _ rows
        (λ row (w, e).
          ap (probe uuid m pattern _ row) e
          ∙ ap (merge_each uuid row)
              (find_side-build_side (normalize_join_value uuid w) (match_pattern uuid m pattern) [])
          ∙ merge_each-with_key row w (match_pattern uuid m pattern) shown e candidates)
        all
