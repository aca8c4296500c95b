-- ===== src/Query/Results/Written.antt =====
-- What the writing of window values does to the rows (`apply_window_functions` of
-- src/query/datalog/executor.rs).
use minigraf.Prelude.{
  ℕ, zero, suc, ◌<◌, ◌≡◌, refl, ap, ◌∙◌, ◌⊎◌, inl, inr, some, List, [], ◌∷◌, arith, Bool-cases,
  length,
}
use mathlib.Core.Path.{subst}
use minigraf.Prelude.Text.{Text, bytes_eq, bytes_eq_iff, bytes_eq_refl}
use minigraf.Prelude.Map.{lookup, insert, bytes_key, lookup-insert}
use minigraf.Graph.Value.{Value}
use minigraf.Query.Matcher.{Bindings}
use minigraf.Query.Results.Windows.{row_at, set_value, write_values}

-- The name is bound in the row.
abbrev pub BindsName : Text → Bindings → Type 0
BindsName x b = (v : Value) × (lookup x b ≡ some v)

-- The row with the index is among those that are written.
abbrev pub HasIndex : ℕ → List (Value × ℕ) → Type 0
HasIndex k [] = ⊥
HasIndex k (x ∷ keyed) = (k ≡ x.1) ⊎ HasIndex k keyed

BindsName-insert :
    (key x : Text) (v : Value) (b : Bindings) → BindsName x b → BindsName x (insert key v b)
BindsName-insert key x v b (w, e) = elim (Bool-cases (bytes_eq key x)) [
  | inl same ↦ (v, lookup-insert key x v b ∙ rw same refl)
  | inr other ↦ (w, lookup-insert key x v b ∙ rw other e)
]

BindsName-of_insert : (key : Text) (v : Value) (b : Bindings) → BindsName key (insert key v b)
BindsName-of_insert key v b = (v, lookup-insert key key v b ∙ rw (bytes_eq_refl key) refl)

pub lookup-insert_other :
    (key x : Text) (v : Value) (b : Bindings) → ¬ (key ≡ x) → lookup x (insert key v b) ≡ lookup x b
lookup-insert_other key x v b other = elim (Bool-cases (bytes_eq key x)) [
  | inl same ↦ absurd (other ((bytes_eq_iff key x).0 same))
  | inr e ↦ lookup-insert key x v b ∙ rw e refl
]

pub length-set_value :
    (key : Text) (i : ℕ) (v : Value) (bs : List Bindings)
    → length (set_value key i v bs) ≡ length bs
unfolding set_value
length-set_value key i v [] = refl
length-set_value key zero v (b ∷ bs) = refl
length-set_value key (suc i) v (b ∷ bs) = ap suc (length-set_value key i v bs)

lookup-set_value :
    (key x : Text) (i k : ℕ) (v : Value) (bs : List Bindings)
    → ¬ (key ≡ x)
    → lookup x (row_at k (set_value key i v bs)) ≡ lookup x (row_at k bs)
unfolding set_value row_at
lookup-set_value key x i k v [] other = refl
lookup-set_value key x zero zero v (b ∷ bs) other = lookup-insert_other key x v b other
lookup-set_value key x zero (suc k) v (b ∷ bs) other = refl
lookup-set_value key x (suc i) zero v (b ∷ bs) other = refl
lookup-set_value key x (suc i) (suc k) v (b ∷ bs) other = lookup-set_value key x i k v bs other

BindsName-set_value :
    (key x : Text) (i k : ℕ) (v : Value) (bs : List Bindings)
    → BindsName x (row_at k bs)
    → BindsName x (row_at k (set_value key i v bs))
unfolding set_value row_at
BindsName-set_value key x i k v [] bound = bound
BindsName-set_value key x zero zero v (b ∷ bs) bound = BindsName-insert key x v b bound
BindsName-set_value key x zero (suc k) v (b ∷ bs) bound = bound
BindsName-set_value key x (suc i) zero v (b ∷ bs) bound = bound
BindsName-set_value key x (suc i) (suc k) v (b ∷ bs) bound =
    BindsName-set_value key x i k v bs bound

BindsName-of_set_value :
    (key : Text) (k : ℕ) (v : Value) (bs : List Bindings)
    → k < length bs
    → BindsName key (row_at k (set_value key k v bs))
unfolding set_value row_at
BindsName-of_set_value key k v [] h = absurd (omega arith)
BindsName-of_set_value key zero v (b ∷ bs) h = BindsName-of_insert key v b
BindsName-of_set_value key (suc k) v (b ∷ bs) h = BindsName-of_set_value key k v bs (omega arith)

pub length-write_values :
    (key : Text) (keyed : List (Value × ℕ)) (values : List Value) (bs : List Bindings)
    → length (write_values key keyed values bs) ≡ length bs
unfolding write_values
length-write_values key [] values bs = refl
length-write_values key (x ∷ keyed) [] bs = refl
length-write_values key (x ∷ keyed) (v ∷ values) bs =
    length-write_values key keyed values (set_value key x.1 v bs) ∙ length-set_value key x.1 v bs

pub lookup-write_values :
    (key x : Text) (k : ℕ) (keyed : List (Value × ℕ)) (values : List Value) (bs : List Bindings)
    → ¬ (key ≡ x)
    → lookup x (row_at k (write_values key keyed values bs)) ≡ lookup x (row_at k bs)
unfolding write_values
lookup-write_values key x k [] values bs other = refl
lookup-write_values key x k (y ∷ keyed) [] bs other = refl
lookup-write_values key x k (y ∷ keyed) (v ∷ values) bs other =
    lookup-write_values key x k keyed values (set_value key y.1 v bs) other
    ∙ lookup-set_value key x y.1 k v bs other

pub BindsName-write_values :
    (key x : Text) (k : ℕ) (keyed : List (Value × ℕ)) (values : List Value) (bs : List Bindings)
    → BindsName x (row_at k bs)
    → BindsName x (row_at k (write_values key keyed values bs))
unfolding write_values
BindsName-write_values key x k [] values bs bound = bound
BindsName-write_values key x k (y ∷ keyed) [] bs bound = bound
BindsName-write_values key x k (y ∷ keyed) (v ∷ values) bs bound =
    BindsName-write_values key x k keyed values (set_value key y.1 v bs)
      (BindsName-set_value key x y.1 k v bs bound)

pub BindsName-of_write_values :
    (key : Text) (k : ℕ) (keyed : List (Value × ℕ)) (values : List Value) (bs : List Bindings)
    → HasIndex k keyed
    → length values ≡ length keyed
    → k < length bs
    → BindsName key (row_at k (write_values key keyed values bs))
unfolding write_values
BindsName-of_write_values key k [] values bs here e h = absurd here
BindsName-of_write_values key k (y ∷ keyed) [] bs here e h = absurd (omega (arith, e))
BindsName-of_write_values key k (y ∷ keyed) (v ∷ values) bs (inl same) e h =
    BindsName-write_values key key k keyed values (set_value key y.1 v bs) (
      subst (λ i. BindsName key (row_at k (set_value key i v bs))) same
        (BindsName-of_set_value key k v bs h))
BindsName-of_write_values key k (y ∷ keyed) (v ∷ values) bs (inr later) e h =
    BindsName-of_write_values key k keyed values (set_value key y.1 v bs) later (omega (arith, e))
      (omega (arith, h, length-set_value key y.1 v bs))
