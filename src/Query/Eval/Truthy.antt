-- ===== src/Query/Eval/Truthy.antt =====
-- The values that pass a filter: `is_truthy` of src/query/datalog/executor.rs.
use minigraf.Prelude.{
  ℕ, zero, suc, ◌%◌, ◌^◌, ◌≡◌, refl, sym, ap, ◌∙◌, ◌≢◌, Bool, true, false, ◌||◌, none, some, arith,
  ltb, ◌==◌, if◌then◌else◌,
}
use minigraf.Prelude.Int.{ℤ, pos, compare_ℤ}
use minigraf.Prelude.Map.{bytes_key}
use minigraf.Graph.Float.{is_nan, is_sign_negative, negate}
use minigraf.Graph.Value.{Value}
use minigraf.Graph.Value.Equal.{int_eq, int_eq-eq, float_eq, is_equal}
use minigraf.Query.Eval.{is_truthy}

-- The values that pass a filter: true, and the numbers but zero, of which the floats have two.
abbrev pub Truthy : Value → Type 0
Truthy (Value.boolean b) = b ≡ true
Truthy (Value.integer i) = i ≢ pos 0
Truthy (Value.float f) = f % 2 ^ 63 ≢ 0
Truthy v = ⊥

int_eq_zero : (i : ℤ) → int_eq i (pos 0) ≡ false → i ≢ pos 0
int_eq_zero i h e = absurd (differ (sym h ∙ ap (λ j. int_eq j (pos 0)) e))
  where
    differ : ¬ (false ≡ true)
    differ d = cc

equal_to_zero :
    (m : ℕ) (nan negative : Bool)
    → nan ≡ ltb 0x7ff0_0000_0000_0000 m
    → is_equal (
        if nan || false
        then none
        else some (compare_ℤ (if negative then negate m else pos m) (pos 0)))
      ≡ (m == 0)
equal_to_zero zero nan true e = rw e refl
equal_to_zero zero nan false e = rw e refl
equal_to_zero (suc m) true negative e = ground arith
equal_to_zero (suc m) false true e = ground arith
equal_to_zero (suc m) false false e = ground arith

float_eq_zero : (f : ℕ) → float_eq f 0 ≡ ((f % 2 ^ 63) == 0)
float_eq_zero f = equal_to_zero (f % 2 ^ 63) (is_nan f) (is_sign_negative f) refl

pub is_truthy-Truthy : (v : Value) → is_truthy v ≡ true → Truthy v
unfolding is_truthy
is_truthy-Truthy (Value.boolean b) h = h
is_truthy-Truthy (Value.integer i) h = int_eq_zero i (ground (arith, h))
is_truthy-Truthy (Value.float f) h = ground (arith, h, float_eq_zero f)
is_truthy-Truthy v h = cc

pub is_truthy-not-Truthy : (v : Value) → is_truthy v ≡ false → ¬ Truthy v
unfolding is_truthy
is_truthy-not-Truthy (Value.boolean b) h = λ t. falsified b h t
  where
    falsified : (c : Bool) → c ≡ false → ¬ (c ≡ true)
    falsified c e t = cc
is_truthy-not-Truthy (Value.integer i) h = λ t. t (int_eq-eq i (pos 0) (ground (arith, h)))
is_truthy-not-Truthy (Value.float f) h = λ t. ground (arith, h, float_eq_zero f)
is_truthy-not-Truthy (Value.string s) h = λ t. t
is_truthy-not-Truthy (Value.ref s) h = λ t. t
is_truthy-not-Truthy (Value.keyword s) h = λ t. t
is_truthy-not-Truthy Value.null h = λ t. t
