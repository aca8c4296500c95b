-- ===== src/Query/Matcher/Sides.antt =====
-- What is in the buckets of a hash join (src/query/datalog/matcher.rs).
use minigraf.Prelude.{
  ◌≡◌, refl, inl, inr, Option, none, some, List, [], ◌∷◌, Bool-cases, All, All-append,
}
use minigraf.Prelude.Options.{push_some}
use minigraf.Prelude.Text.{Text}
use minigraf.Prelude.Map.{bytes_key, lookup}
use minigraf.Graph.Value.{Value}
use minigraf.Graph.Value.Equal.{value_eq}
use minigraf.Query.Matcher.{UuidCrate, Bindings, normalize_join_value}
use minigraf.Query.Matcher.Join.{BuildSide, add_to_side, find_side, side_with, build_side, flat_map}

pub All-push_some :
    {A : Type 0} (P : A → Type 0) (o : Option A) (rest : List A)
    → ((a : A) → o ≡ some a → P a)
    → All P rest
    → All P (push_some o rest)
All-push_some P none rest h all = all
All-push_some P (some a) rest h all = (h a refl, all)

pub All-flat_map :
    {A B : Type 0} (P : A → Type 0) (Q : B → Type 0) (f : A → List B)
    → ((a : A) → P a → All Q (f a))
    → (xs : List A) → All P xs
    → All Q (flat_map f xs)
All-flat_map P Q f h [] all = tt
All-flat_map P Q f h (x ∷ xs) (p, all) =
    All-append Q (f x) (flat_map f xs) (h x p) (All-flat_map P Q f h xs all)

pub All-map :
    {A : Type 0} (P Q : A → Type 0) → ((a : A) → P a → Q a) → (xs : List A) → All P xs → All Q xs
All-map P Q h [] all = tt
All-map P Q h (x ∷ xs) (p, all) = (h x p, All-map P Q h xs all)

-- What is in the buckets was put there.
abbrev pub AllSide : (Bindings → Type 0) → BuildSide → Type 0
AllSide P [] = Unit
AllSide P ((k, bs) ∷ side) = All P bs × AllSide P side

add_to_side-AllSide :
    (P : Bindings → Type 0) (key : Value) (b : Bindings) (side : BuildSide)
    → P b
    → AllSide P side
    → AllSide P (add_to_side key b side)
unfolding add_to_side
add_to_side-AllSide P key b [] p all = ((p, tt), tt)
add_to_side-AllSide P key b ((k, bs) ∷ side) p (here, there) = elim (Bool-cases (value_eq k key)) [
  | inl same ↦ rw same (All-append P bs (b ∷ []) here (p, tt), there)
  | inr other ↦ rw other (here, add_to_side-AllSide P key b side p there)
]

pub find_side-All :
    (P : Bindings → Type 0) (key : Value) (side : BuildSide)
    → AllSide P side
    → All P (find_side key side)
unfolding find_side
find_side-All P key [] all = tt
find_side-All P key ((k, bs) ∷ side) (here, there) = elim (Bool-cases (value_eq k key)) [
  | inl same ↦ rw same here
  | inr other ↦ rw other (find_side-All P key side there)
]

module _ (uuid : UuidCrate) where
  side_with-AllSide :
      (P : Bindings → Type 0) (b : Bindings) (side : BuildSide) (found : Option Value)
      → P b
      → AllSide P side
      → AllSide P (side_with uuid b side found)
  side_with-AllSide P b side none p all = all
  side_with-AllSide P b side (some val) p all =
      add_to_side-AllSide P (normalize_join_value uuid val) b side p all

  pub build_side-AllSide :
      (P : Bindings → Type 0) (var : Text) (candidates : List Bindings) (side : BuildSide)
      → All P candidates
      → AllSide P side
      → AllSide P (build_side uuid var candidates side)
  unfolding build_side
  build_side-AllSide P var [] side ps all = all
  build_side-AllSide P var (b ∷ candidates) side (p, ps) all =
      build_side-AllSide P var candidates _ ps (side_with-AllSide P b side (lookup var b) p all)
