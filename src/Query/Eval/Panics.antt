-- ===== src/Query/Eval/Panics.antt =====
-- The one division that panics (src/query/datalog/executor.rs).
use minigraf.Prelude.{
  ℕ, Ordering, ◌≡◌, refl, ap, ◌∙◌, ◌↔◌, inl, inr, Bool, true, false, ◌||◌, Option, none, some,
  if◌then◌else◌, Bool-cases,
}
use minigraf.Prelude.Int.{ℤ, pos, negsuc, i64_min}
use minigraf.Prelude.Text.{Text}
use minigraf.Graph.Float.{is_nan}
use minigraf.Graph.Value.{Value}
use minigraf.Graph.Value.Equal.{int_eq, int_eq-eq, float_eq}
use minigraf.Rules.Syntax.{BinOp}
use minigraf.Query.Matcher.{UuidCrate}
use minigraf.Query.Eval.{
  FloatArithmetic, Evaluated, answered, failed, panicked, div_integers, compared, on_floats,
  on_strings, to_float_pair, on_numbers, eval_binop,
}

-- A division of the smallest integer by -1.
abbrev pub Overflows : BinOp → Value → Value → Type 0
Overflows op l r = (op ≡ BinOp.div) × (l ≡ Value.integer i64_min) × (r ≡ Value.integer (negsuc 0))

answered-ne-panicked : {v : Value} → answered v ≡ panicked → ⊥
answered-ne-panicked e = cc

failed-ne-panicked : failed ≡ panicked → ⊥
failed-ne-panicked e = cc

chosen-ne-panicked : (b : Bool) (v : Value) → (if b then failed else answered v) ≡ panicked → ⊥
chosen-ne-panicked true v e = failed-ne-panicked e
chosen-ne-panicked false v e = answered-ne-panicked e

compared-ne-panicked :
    (decide : Ordering → Bool) (o : Option (Option Ordering)) → compared decide o ≡ panicked → ⊥
compared-ne-panicked decide none e = failed-ne-panicked e
compared-ne-panicked decide (some none) e = answered-ne-panicked e
compared-ne-panicked decide (some (some o)) e = answered-ne-panicked e

on_strings-ne-panicked :
    (decide : Text → Text → Bool) (l r : Value) → on_strings decide l r ≡ panicked → ⊥
on_strings-ne-panicked decide (Value.string a) (Value.string b) e = answered-ne-panicked e
on_strings-ne-panicked decide l r e = cc

on_floats-ne-panicked :
    (next : ℕ → ℕ → Evaluated) (o : Option (ℕ × ℕ))
    → ((lf rf : ℕ) → next lf rf ≡ panicked → ⊥)
    → on_floats next o ≡ panicked
    → ⊥
on_floats-ne-panicked next none h e = failed-ne-panicked e
on_floats-ne-panicked next (some (lf, rf)) h e = h lf rf e

module _ (uuid : UuidCrate) (f64 : FloatArithmetic) (is_match : Text → Text → Bool) where
  on_numbers-panicked :
      (integers : ℤ → ℤ → Evaluated) (floats : ℕ → ℕ → Evaluated) (l r : Value)
      → ((lf rf : ℕ) → floats lf rf ≡ panicked → ⊥)
      → on_numbers uuid f64 is_match integers floats l r ≡ panicked
      → (a : ℤ) × (b : ℤ) × (l ≡ Value.integer a)
        × (r ≡ Value.integer b)
        × (integers a b ≡ panicked)
  on_numbers-panicked integers floats (Value.integer a) (Value.integer b) h e =
      (a, b, refl, refl, e)
  on_numbers-panicked integers floats l r h e =
      absurd (on_floats-ne-panicked floats (to_float_pair uuid f64 is_match l r) h e)

  div_integers-panicked : (a b : ℤ) → div_integers a b ≡ panicked → (a ≡ i64_min) × (b ≡ negsuc 0)
  div_integers-panicked a b e = elim (Bool-cases (int_eq b (pos 0))) [
    | inl zero_b ↦ absurd (failed-ne-panicked (rw zero_b at e))
    | inr nonzero ↦ elim (Bool-cases (int_eq a i64_min)) [
      | inl least ↦ elim (Bool-cases (int_eq b (negsuc 0))) [
        | inl minus ↦ (int_eq-eq a i64_min least, int_eq-eq b (negsuc 0) minus)
        | inr other ↦ absurd (answered-ne-panicked (rw (nonzero, least, other) at e))
      ]
      | inr other ↦ absurd (answered-ne-panicked (rw (nonzero, other) at e))
    ]
  ]

  overflows :
      (op : BinOp) (l r : Value) → eval_binop uuid f64 is_match op l r ≡ panicked → Overflows op l r
  unfolding eval_binop
  overflows BinOp.eq l r e = absurd (answered-ne-panicked e)
  overflows BinOp.neq l r e = absurd (answered-ne-panicked e)
  overflows BinOp.lt l r e = absurd (compared-ne-panicked _ _ e)
  overflows BinOp.gt l r e = absurd (compared-ne-panicked _ _ e)
  overflows BinOp.lte l r e = absurd (compared-ne-panicked _ _ e)
  overflows BinOp.gte l r e = absurd (compared-ne-panicked _ _ e)
  overflows BinOp.starts_with l r e = absurd (on_strings-ne-panicked _ l r e)
  overflows BinOp.ends_with l r e = absurd (on_strings-ne-panicked _ l r e)
  overflows BinOp.contains l r e = absurd (on_strings-ne-panicked _ l r e)
  overflows (BinOp.matches regex) l r e = absurd (on_strings-ne-panicked _ l r e)
  overflows BinOp.add l r e =
      let (a, b, x, y, p) =
        on_numbers-panicked _ _ l r (λ lf rf. chosen-ne-panicked (is_nan (f64.add lf rf)) _) e in
      absurd (answered-ne-panicked p)
  overflows BinOp.sub l r e =
      let (a, b, x, y, p) =
        on_numbers-panicked _ _ l r (λ lf rf. chosen-ne-panicked (is_nan (f64.sub lf rf)) _) e in
      absurd (answered-ne-panicked p)
  overflows BinOp.mul l r e =
      let (a, b, x, y, p) =
        on_numbers-panicked _ _ l r (λ lf rf. chosen-ne-panicked (is_nan (f64.mul lf rf)) _) e in
      absurd (answered-ne-panicked p)
  overflows BinOp.div l r e =
      let (a, b, x, y, p) =
        on_numbers-panicked _ _ l r (λ lf rf. chosen-ne-panicked (float_eq rf 0 || is_nan rf) _)
          e in
      let (least, minus) = div_integers-panicked a b p in
      (refl, x ∙ ap Value.integer least, y ∙ ap Value.integer minus)

  -- An operator panics exactly where it divides the smallest integer by -1: a division by 0, a
  -- value of another type and an overflow of the other operators never do.
  pub eval_binop-panics_iff :
      (op : BinOp) (l r : Value)
      → (eval_binop uuid f64 is_match op l r ≡ panicked) ↔ Overflows op l r
  unfolding eval_binop
  eval_binop-panics_iff op l r = (overflows op l r, λ (x, y, z). rw (x, y, z) refl)
