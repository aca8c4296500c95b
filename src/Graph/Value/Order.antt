-- ===== src/Graph/Value/Order.antt =====
-- `Value::cmp` is a total order on the values of the Rust type (src/graph/types.rs).
use minigraf.Prelude.Order.{
  and_then, flip, compare_bytes, compare_self, flip-compare_bytes, compare_bytes_self,
  eq_of_compare_bytes, compare_bytes_trans,
}
use minigraf.Prelude.Int.{ℤ, pos, negsuc, compare_ℤ, IsI64}
use minigraf.Prelude.{
  ℕ, suc, ◌+◌, ◌-◌, ◌%◌, ◌^◌, ◌<◌, compare, Ordering, ◌≡◌, refl, sym, ap, ◌∙◌, ◌↔◌, ◌⊎◌, inl, inr,
  true, ◌&&◌, List, [], ◌∷◌, arith, ◌==◌, if◌then◌else◌, Bool-cases,
}
use minigraf.Graph.Float.{IsF64, is_nan, magnitude}
use minigraf.Graph.Value.{
  Value, string, integer, float, boolean, ref, keyword, null, IsValue, cmp, compare_float,
}

-- An integer shifted above 0, for 64-bit numbers.
abbrev above : ℤ → ℕ
above (pos n) = 2 ^ 64 + n
above (negsuc n) = 2 ^ 64 - suc n

-- A float's place in the order: NaN stands last.
abbrev place : ℕ → ℕ
place bits = if is_nan bits then 2 ^ 66 else above (magnitude bits)

-- A byte string whose lexicographic order is the order of values.
abbrev sort_key : Value → List ℕ
sort_key (string s) = 0 ∷ s
sort_key (integer n) = 1 ∷ above n ∷ []
sort_key (float bits) = 2 ∷ place bits ∷ []
sort_key (boolean b) = 3 ∷ (if b then 1 else 0) ∷ []
sort_key (ref id) = 4 ∷ id ∷ []
sort_key (keyword k) = 5 ∷ k
sort_key null = 6 ∷ []

compare_ℤ-above : (a b : ℤ) → IsI64 a → IsI64 b → compare_ℤ a b ≡ compare (above a) (above b)
compare_ℤ-above (pos a) (pos b) h k = ground arith
compare_ℤ-above (pos a) (negsuc b) h k = ground arith
compare_ℤ-above (negsuc a) (pos b) h k = ground arith
compare_ℤ-above (negsuc a) (negsuc b) h k = ground arith

magnitude-IsI64 : (bits : ℕ) → IsI64 (magnitude bits)
magnitude-IsI64 bits = ground arith

above_bound : (n : ℤ) → IsI64 n → above n < 2 ^ 66
above_bound n h = ground arith

compare_float-place : (a b : ℕ) → compare_float a b ≡ compare (place a) (place b)
compare_float-place a b = elim (Bool-cases (is_nan a)) [
  | inl na ↦ elim (Bool-cases (is_nan b)) [
    | inl nb ↦ rw (na, nb) refl
    | inr nb ↦ rw (na, nb) (ground (arith, above_bound (magnitude b) (magnitude-IsI64 b)))
  ]
  | inr na ↦ elim (Bool-cases (is_nan b)) [
    | inl nb ↦ rw (na, nb) (ground (arith, above_bound (magnitude a) (magnitude-IsI64 a)))
    | inr nb ↦
        rw (na, nb)
          (compare_ℤ-above (magnitude a) (magnitude b) (magnitude-IsI64 a) (magnitude-IsI64 b))
  ]
]

and_then_eq : (o : Ordering) → and_then o Ordering.eq ≡ o
and_then_eq Ordering.lt = refl
and_then_eq Ordering.eq = refl
and_then_eq Ordering.gt = refl

cmp-sort_key :
    (a b : Value) → IsValue a → IsValue b → cmp a b ≡ compare_bytes (sort_key a) (sort_key b)
unfolding cmp
cmp-sort_key (string a) (string b) h k = refl
cmp-sort_key (integer a) (integer b) h k =
    compare_ℤ-above a b h k ∙ sym (and_then_eq (compare (above a) (above b)))
cmp-sort_key (float a) (float b) h k =
    compare_float-place a b ∙ sym (and_then_eq (compare (place a) (place b)))
cmp-sort_key (boolean a) (boolean b) h k = ground arith
cmp-sort_key (ref a) (ref b) h k = sym (and_then_eq (compare a b))
cmp-sort_key (keyword a) (keyword b) h k = refl
cmp-sort_key null null h k = refl
cmp-sort_key _ _ h k = refl

-- Swapping the arguments of `Value::cmp` reverses its answer; `Less` is transitive; and values that
-- compare as equal compare alike with every third value.
pub cmp_total_order :
    (a b c : Value)
    → IsValue a
    → IsValue b
    → IsValue c
    → (cmp b a ≡ flip (cmp a b))
      × (cmp a b ≡ Ordering.lt → cmp b c ≡ Ordering.lt → cmp a c ≡ Ordering.lt)
      × (cmp a b ≡ Ordering.eq → cmp a c ≡ cmp b c)
cmp_total_order a b c ha hb hc =
    let ab = cmp-sort_key a b ha hb in
    let bc = cmp-sort_key b c hb hc in
    let ac = cmp-sort_key a c ha hc in
    (
      rw (ab, cmp-sort_key b a hb ha) (flip-compare_bytes (sort_key a) (sort_key b)),
      λ p q.
          ac ∙ compare_bytes_trans (sort_key a) (sort_key b) (sort_key c) (sym ab ∙ p) (sym bc ∙ q),
      λ p.
          ac
          ∙ ap (λ k. compare_bytes k (sort_key c))
              (eq_of_compare_bytes (sort_key a) (sort_key b) (sym ab ∙ p))
          ∙ sym bc,
    )

-- Two values compare as equal exactly when they are one value, or both are NaN, or both are zeros
-- of a float.
abbrev pub Same : Value → Value → Type 0
Same (float a) (float b) =
    (a ≡ b) ⊎ ((is_nan a && is_nan b ≡ true) ⊎ ((a % 2 ^ 63 ≡ 0) × (b % 2 ^ 63 ≡ 0)))
Same a b = a ≡ b

Same-float-of_eq :
    (a b : ℕ) → IsF64 a → IsF64 b → compare_float a b ≡ Ordering.eq → Same (float a) (float b)
Same-float-of_eq a b h k e = elim (Bool-cases (is_nan a && is_nan b)) [
  | inl nans ↦ inr (inl nans)
  | inr not_nans ↦ elim (Bool-cases (a == b)) [
    | inl same ↦ inl (ground arith)
    | inr differ ↦ inr (inr (ground arith, ground arith))
  ]
]

eq_of-Same_float : (a b : ℕ) → Same (float a) (float b) → compare_float a b ≡ Ordering.eq
eq_of-Same_float a b h = ground arith

Same-of_eq : (a b : Value) → IsValue a → IsValue b → cmp a b ≡ Ordering.eq → Same a b
unfolding cmp
Same-of_eq (string a) (string b) h k e = ap string (eq_of_compare_bytes a b e)
Same-of_eq (integer a) (integer b) h k e = ground arith
Same-of_eq (float a) (float b) h k e = Same-float-of_eq a b h k e
Same-of_eq (boolean a) (boolean b) h k e = ground arith
Same-of_eq (ref a) (ref b) h k e = ground arith
Same-of_eq (keyword a) (keyword b) h k e = ap keyword (eq_of_compare_bytes a b e)
Same-of_eq null null h k e = refl
Same-of_eq _ _ h k e = cc

cmp_self : (a : Value) → cmp a a ≡ Ordering.eq
unfolding cmp
cmp_self (string a) = compare_bytes_self a
cmp_self (integer a) = ground arith
cmp_self (float a) = eq_of-Same_float a a (inl refl)
cmp_self (boolean a) = ground arith
cmp_self (ref a) = compare_self a
cmp_self (keyword a) = compare_bytes_self a
cmp_self null = refl

eq_of-Same : (a b : Value) → Same a b → cmp a b ≡ Ordering.eq
eq_of-Same (float a) (float b) h = unfold cmp in eq_of-Same_float a b h
eq_of-Same a b h = rw h (cmp_self b)

-- `Value::cmp` answers `Equal` exactly for one and the same value, for two floats that are NaN, and
-- for two float zeros.
pub cmp-eq_iff : (a b : Value) → IsValue a → IsValue b → (cmp a b ≡ Ordering.eq) ↔ Same a b
cmp-eq_iff a b h k = (Same-of_eq a b h k, eq_of-Same a b)
