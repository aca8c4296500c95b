-- ===== src/Graph/Value/Equal.antt =====
-- `PartialEq` for `Value` of src/graph/types.rs, as it is derived.
use minigraf.Prelude.{
  ℕ, Ordering, ◌≡◌, refl, sym, ap₂, ap, ◌∙◌, ◌⊎◌, inl, inr, Bool, true, false, not, ◌||◌, Option,
  none, some, arith, ◌==◌, if◌then◌else◌, ==_iff,
}
use minigraf.Prelude.Int.{ℤ, pos, negsuc, compare_ℤ}
use minigraf.Prelude.Text.{bytes_eq, bytes_eq→eq}
use minigraf.Graph.Float.{partial_cmp, magnitude, is_nan}
use minigraf.Graph.Value.{Value, string, integer, float, boolean, ref, keyword, null}

abbrev pub int_eq : ℤ → ℤ → Bool
int_eq (pos a) (pos b) = a == b
int_eq (pos a) (negsuc b) = false
int_eq (negsuc a) (pos b) = false
int_eq (negsuc a) (negsuc b) = a == b

abbrev pub bool_eq : Bool → Bool → Bool
bool_eq true b = b
bool_eq false b = not b

abbrev pub is_equal : Option Ordering → Bool
is_equal none = false
is_equal (some Ordering.lt) = false
is_equal (some Ordering.eq) = true
is_equal (some Ordering.gt) = false

-- `f64::eq`: a NaN equals nothing.
abbrev pub float_eq : ℕ → ℕ → Bool
float_eq a b = is_equal (partial_cmp a b)

-- `Value::eq`
unfoldable pub value_eq : Value → Value → Bool
value_eq (string a) (string b) = bytes_eq a b
value_eq (integer a) (integer b) = int_eq a b
value_eq (float a) (float b) = float_eq a b
value_eq (boolean a) (boolean b) = bool_eq a b
value_eq (ref a) (ref b) = a == b
value_eq (keyword a) (keyword b) = bytes_eq a b
value_eq null null = true
value_eq a b = false

-- A value with its float as the number that grows with it, so that both zeros are one.
abbrev pub canonical : Value → Value ⊎ ℤ
canonical (float bits) = inr (magnitude bits)
canonical v = inl v

pub int_eq-eq : (a b : ℤ) → int_eq a b ≡ true → a ≡ b
int_eq-eq (pos a) (pos b) h = ap pos ((==_iff a b).0 h)
int_eq-eq (pos a) (negsuc b) h = cc
int_eq-eq (negsuc a) (pos b) h = cc
int_eq-eq (negsuc a) (negsuc b) h = ap negsuc ((==_iff a b).0 h)

pub bool_eq-eq : (a b : Bool) → bool_eq a b ≡ true → a ≡ b
bool_eq-eq true true h = refl
bool_eq-eq true false h = cc
bool_eq-eq false true h = cc
bool_eq-eq false false h = refl

equal-compare_ℤ : (a b : ℤ) → is_equal (some (compare_ℤ a b)) ≡ true → a ≡ b
equal-compare_ℤ (pos a) (pos b) h = ground arith
equal-compare_ℤ (pos a) (negsuc b) h = cc
equal-compare_ℤ (negsuc a) (pos b) h = cc
equal-compare_ℤ (negsuc a) (negsuc b) h = ground arith

equal_if :
    (test : Bool) (a b : ℤ) → is_equal (if test then none else some (compare_ℤ a b)) ≡ true → a ≡ b
equal_if true a b h = cc
equal_if false a b h = equal-compare_ℤ a b h

-- Floats that are equal have one magnitude.
pub float_eq-magnitude : (a b : ℕ) → float_eq a b ≡ true → magnitude a ≡ magnitude b
float_eq-magnitude a b h = equal_if (is_nan a || is_nan b) (magnitude a) (magnitude b) h

-- Values that are equal are one value, up to the zeros.
pub value_eq-canonical : (a b : Value) → value_eq a b ≡ true → canonical a ≡ canonical b
unfolding value_eq
value_eq-canonical (string a) (string b) h = ap (λ s. inl (string s)) (bytes_eq→eq a b h)
value_eq-canonical (integer a) (integer b) h = ap (λ n. inl (integer n)) (int_eq-eq a b h)
value_eq-canonical (float a) (float b) h = ap inr (float_eq-magnitude a b h)
value_eq-canonical (boolean a) (boolean b) h = ap (λ c. inl (boolean c)) (bool_eq-eq a b h)
value_eq-canonical (ref a) (ref b) h = ap (λ i. inl (ref i)) ((==_iff a b).0 h)
value_eq-canonical (keyword a) (keyword b) h = ap (λ k. inl (keyword k)) (bytes_eq→eq a b h)
value_eq-canonical null null h = refl
value_eq-canonical a b h = cc

-- Values that are equal are one value, or floats of one magnitude.
same_or_float :
    (a b : Value)
    → value_eq a b ≡ true
    → (a ≡ b) ⊎ ((x : ℕ) × (y : ℕ) × (a ≡ float x) × (b ≡ float y) × (float_eq x y ≡ true))
unfolding value_eq
same_or_float (string a) (string b) h = inl (ap string (bytes_eq→eq a b h))
same_or_float (integer a) (integer b) h = inl (ap integer (int_eq-eq a b h))
same_or_float (float a) (float b) h = inr (a, b, refl, refl, h)
same_or_float (boolean a) (boolean b) h = inl (ap boolean (bool_eq-eq a b h))
same_or_float (ref a) (ref b) h = inl (ap ref ((==_iff a b).0 h))
same_or_float (keyword a) (keyword b) h = inl (ap keyword (bytes_eq→eq a b h))
same_or_float null null h = inl refl
same_or_float a b h = cc

-- `float_eq` reads whether its arguments are NaN, and their magnitudes.
abbrev equal_of : Bool → Bool → ℤ → ℤ → Bool
equal_of nan_a nan_b a b = is_equal (if nan_a || nan_b then none else some (compare_ℤ a b))

numbers_if :
    (a b : Bool) (o : Ordering)
    → is_equal (if a || b then none else some o) ≡ true
    → (a ≡ false) × (b ≡ false)
numbers_if true b o h = cc
numbers_if false true o h = cc
numbers_if false false o h = (refl, refl)

float_eq-numbers : (x y : ℕ) → float_eq x y ≡ true → (is_nan x ≡ false) × (is_nan y ≡ false)
float_eq-numbers x y h = numbers_if (is_nan x) (is_nan y) (compare_ℤ (magnitude x) (magnitude y)) h

-- Equal values are alike for `==`, on either side.
pub value_eq_right : (a b : Value) → value_eq a b ≡ true → (c : Value) → value_eq c a ≡ value_eq c b
unfolding value_eq
value_eq_right a b h c = elim (same_or_float a b h) [
  | inl e ↦ ap (value_eq c) e
  | inr (x, y, ex, ey, fe) ↦ rw (ex, ey) (at_float c x y fe)
]
  where
    at_float :
        (c : Value) (x y : ℕ) → float_eq x y ≡ true → value_eq c (float x) ≡ value_eq c (float y)
    at_float (float z) x y fe =
        let (nx, ny) = float_eq-numbers x y fe in
        ap₂ (λ n m. equal_of (is_nan z) n (magnitude z) m) (nx ∙ sym ny) (float_eq-magnitude x y fe)
    at_float c x y fe = refl

pub value_eq_left : (a b : Value) → value_eq a b ≡ true → (c : Value) → value_eq a c ≡ value_eq b c
unfolding value_eq
value_eq_left a b h c = elim (same_or_float a b h) [
  | inl e ↦ ap (λ x. value_eq x c) e
  | inr (x, y, ex, ey, fe) ↦ rw (ex, ey) (at_float c x y fe)
]
  where
    at_float :
        (c : Value) (x y : ℕ) → float_eq x y ≡ true → value_eq (float x) c ≡ value_eq (float y) c
    at_float (float z) x y fe =
        let (nx, ny) = float_eq-numbers x y fe in
        ap₂ (λ n m. equal_of n (is_nan z) m (magnitude z)) (nx ∙ sym ny) (float_eq-magnitude x y fe)
    at_float c x y fe = refl

pub value_eq_symm : (a b : Value) → value_eq a b ≡ true → value_eq b a ≡ true
value_eq_symm a b h = sym (value_eq_left a b h a) ∙ value_eq_right a b h a ∙ h
