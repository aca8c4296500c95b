-- ===== src/Query/Eval/Ranges.antt =====
-- Expressions answer values of the Rust type (src/query/datalog/executor.rs).
use minigraf.Prelude.{
  ℕ, zero, suc, ◌/◌, ◌%◌, ◌^◌, ◌≤◌, ◌<◌, Ordering, ◌≡◌, inl, inr, Bool, false, ◌&&◌, ◌||◌, Option,
  none, some, [], ◌∷◌, arith, Bool-cases,
}
use native.Mathlib.Nat.{div-le_self, div-le_of_le-mul}
use minigraf.Prelude.Int.{ℤ, pos, negsuc, i64_min, IsI64}
use minigraf.Prelude.Text.{Text, bytes_eq}
use minigraf.Prelude.Map.{bytes_key, lookup}
use minigraf.Graph.Float.{is_nan, IsF64, negate}
use minigraf.Graph.Value.{Value, IsValue}
use minigraf.Graph.Value.Equal.{int_eq, float_eq}
use minigraf.Rules.Syntax.{BinOp, UnaryOp, Expr}
use minigraf.Query.Matcher.{UuidCrate, Bindings, cast_signed}
use minigraf.Query.Eval.{
  FloatArithmetic, Predicates, PredicateDesc, get_predicate, Evaluated, answered, failed, panicked,
  answer_or, after, called, quotient, div_integers, not_nan, compared, on_floats, on_strings,
  to_float_pair, on_numbers, div_floats, eval_binop, eval_unary, eval_expr,
}

-- An answer is a value of the Rust type.
abbrev pub Answers : Evaluated → Type 0
Answers (answered v) = IsValue v
Answers failed = Unit
Answers panicked = Unit

-- The arithmetic of `f64` has 64 bits.
pub record IsArithmetic (f64 : FloatArithmetic) : Type 0 where
  pub add_bits : (a b : ℕ) → IsF64 (f64.add a b)
  pub sub_bits : (a b : ℕ) → IsF64 (f64.sub a b)
  pub mul_bits : (a b : ℕ) → IsF64 (f64.mul a b)
  pub div_bits : (a b : ℕ) → IsF64 (f64.div a b)

-- The literals of an expression, and the values of a row.
abbrev pub HasValues : Expr → Type 0
HasValues (Expr.lit v) = IsValue v
HasValues (Expr.unary_op op arg) = HasValues arg
HasValues (Expr.bin_op op lhs rhs) = HasValues lhs × HasValues rhs
HasValues (Expr.var v) = Unit
HasValues (Expr.slot s) = Unit

abbrev pub AllValues : Bindings → Type 0
AllValues [] = Unit
AllValues ((var, v) ∷ b) = IsValue v × AllValues b

cast_signed-IsI64 : (n : ℕ) → IsI64 (cast_signed (n % 2 ^ 64))
cast_signed-IsI64 n = ground arith

negate-IsI64 : (n : ℕ) → n ≤ 2 ^ 63 → IsI64 (negate n)
negate-IsI64 zero h = omega arith
negate-IsI64 (suc n) h = omega (arith, h)

-- The quotient of two negative numbers stays below 2^63 but for the smallest one by -1.
quotient-bound :
    (a b : ℕ)
    → a < 2 ^ 63
    → (int_eq (negsuc a) i64_min && int_eq (negsuc b) (negsuc 0)) ≡ false
    → suc a / suc b < 2 ^ 63
quotient-bound a zero h other = ground arith
quotient-bound a (suc b) h other =
    let half : suc a / suc (suc b) ≤ 2 ^ 62 = div-le_of_le-mul (suc (suc b)) (omega (arith, h)) in
    omega (arith, half)

quotient-IsI64 :
    (a b : ℤ) → IsI64 a → (int_eq a i64_min && int_eq b (negsuc 0)) ≡ false → IsI64 (quotient a b)
quotient-IsI64 (pos a) (pos b) h other =
    let below : a / b ≤ a = div-le_self a b in omega (arith, h, below)
quotient-IsI64 (pos a) (negsuc b) h other =
    let below : a / suc b ≤ a = div-le_self a (suc b) in
    negate-IsI64 (a / suc b) (omega (arith, h, below))
quotient-IsI64 (negsuc a) (pos b) h other =
    let below : suc a / b ≤ suc a = div-le_self (suc a) b in
    negate-IsI64 (suc a / b) (omega (arith, h, below))
quotient-IsI64 (negsuc a) (negsuc b) h other = quotient-bound a b h other

div_integers-Answers : (a b : ℤ) → IsI64 a → Answers (div_integers a b)
div_integers-Answers a b h = elim (Bool-cases (int_eq b (pos 0))) [
  | inl zero_b ↦ rw zero_b tt
  | inr nonzero ↦ elim (Bool-cases (int_eq a i64_min && int_eq b (negsuc 0))) [
    | inl overflows ↦ rw (nonzero, overflows) tt
    | inr other ↦ rw (nonzero, other) (quotient-IsI64 a b h other)
  ]
]

not_nan-Answers : (r : ℕ) → IsF64 r → Answers (not_nan r)
not_nan-Answers r h = elim (Bool-cases (is_nan r)) [
  | inl nan ↦ rw nan tt
  | inr number ↦ rw number h
]

compared-Answers :
    (decide : Ordering → Bool) (o : Option (Option Ordering)) → Answers (compared decide o)
compared-Answers decide none = tt
compared-Answers decide (some none) = tt
compared-Answers decide (some (some o)) = tt

on_strings-Answers : (decide : Text → Text → Bool) (l r : Value) → Answers (on_strings decide l r)
on_strings-Answers decide (Value.string a) (Value.string b) = tt
on_strings-Answers decide l r = tt

on_floats-Answers :
    (next : ℕ → ℕ → Evaluated) (o : Option (ℕ × ℕ))
    → ((lf rf : ℕ) → Answers (next lf rf))
    → Answers (on_floats next o)
on_floats-Answers next none h = tt
on_floats-Answers next (some (lf, rf)) h = h lf rf

after-Answers :
    (x : Evaluated) (next : Value → Evaluated)
    → Answers x
    → ((v : Value) → IsValue v → Answers (next v))
    → Answers (after x next)
after-Answers (answered v) next a h = h v a
after-Answers failed next a h = tt
after-Answers panicked next a h = tt

lookup-IsValue : (v : Text) (b : Bindings) → AllValues b → Answers (answer_or (lookup v b))
lookup-IsValue v [] values = tt
lookup-IsValue v ((j, w) ∷ b) (x, values) = elim (Bool-cases (bytes_eq j v)) [
  | inl here ↦ rw here x
  | inr there ↦ rw there (lookup-IsValue v b values)
]

called-Answers : (v : Value) (o : Option PredicateDesc) → Answers (called v o)
called-Answers v none = tt
called-Answers v (some desc) = tt

module _ (uuid : UuidCrate) (f64 : FloatArithmetic) (is_match : Text → Text → Bool)
    (bits : IsArithmetic f64) where
  on_numbers-Answers :
      (integers : ℤ → ℤ → Evaluated) (floats : ℕ → ℕ → Evaluated) (l r : Value)
      → ((a b : ℤ) → IsI64 a → Answers (integers a b))
      → ((lf rf : ℕ) → Answers (floats lf rf))
      → IsValue l
      → Answers (on_numbers uuid f64 is_match integers floats l r)
  on_numbers-Answers integers floats (Value.integer a) (Value.integer b) h g x = h a b x
  on_numbers-Answers integers floats l r h g x =
      on_floats-Answers floats (to_float_pair uuid f64 is_match l r) g

  div_floats-Answers : (lf rf : ℕ) → Answers (div_floats uuid f64 is_match lf rf)
  div_floats-Answers lf rf = elim (Bool-cases (float_eq rf 0 || is_nan rf)) [
    | inl refused ↦ rw refused tt
    | inr number ↦ rw number (bits.div_bits lf rf)
  ]

  eval_binop-Answers :
      (op : BinOp) (l r : Value) → IsValue l → Answers (eval_binop uuid f64 is_match op l r)
  unfolding eval_binop
  eval_binop-Answers BinOp.eq l r x = tt
  eval_binop-Answers BinOp.neq l r x = tt
  eval_binop-Answers BinOp.lt l r x = compared-Answers _ _
  eval_binop-Answers BinOp.gt l r x = compared-Answers _ _
  eval_binop-Answers BinOp.lte l r x = compared-Answers _ _
  eval_binop-Answers BinOp.gte l r x = compared-Answers _ _
  eval_binop-Answers BinOp.starts_with l r x = on_strings-Answers _ l r
  eval_binop-Answers BinOp.ends_with l r x = on_strings-Answers _ l r
  eval_binop-Answers BinOp.contains l r x = on_strings-Answers _ l r
  eval_binop-Answers (BinOp.matches regex) l r x = on_strings-Answers _ l r
  eval_binop-Answers BinOp.add l r x =
      on_numbers-Answers _ _ l r (λ a b h. cast_signed-IsI64 _)
        (λ lf rf. not_nan-Answers _ (bits.add_bits lf rf)) x
  eval_binop-Answers BinOp.sub l r x =
      on_numbers-Answers _ _ l r (λ a b h. cast_signed-IsI64 _)
        (λ lf rf. not_nan-Answers _ (bits.sub_bits lf rf)) x
  eval_binop-Answers BinOp.mul l r x =
      on_numbers-Answers _ _ l r (λ a b h. cast_signed-IsI64 _)
        (λ lf rf. not_nan-Answers _ (bits.mul_bits lf rf)) x
  eval_binop-Answers BinOp.div l r x =
      on_numbers-Answers _ _ l r div_integers-Answers div_floats-Answers x

  eval_unary-Answers :
      (registry : Predicates) (op : UnaryOp) (v : Value)
      → Answers (eval_unary uuid f64 is_match registry op v)
  eval_unary-Answers registry (UnaryOp.udf name) v = called-Answers v (get_predicate name registry)
  eval_unary-Answers registry op v = tt

  -- An expression whose literals are values of the Rust type answers, on a row of such values,
  -- only such values: integers stay in the 64-bit range, through wrap-around and division, and
  -- floats have 64 bits as long as the arithmetic of `f64` gives 64 bits.
  pub eval_expr-Answers :
      (e : Expr) (b : Bindings) (registry : Predicates)
      → HasValues e
      → AllValues b
      → Answers (eval_expr uuid f64 is_match e b registry)
  unfolding eval_expr
  eval_expr-Answers (Expr.var v) b registry h values = lookup-IsValue v b values
  eval_expr-Answers (Expr.lit v) b registry h values = h
  eval_expr-Answers (Expr.slot s) b registry h values = tt
  eval_expr-Answers (Expr.unary_op op arg) b registry h values =
      after-Answers _ _ (eval_expr-Answers arg b registry h values)
        (λ v x. eval_unary-Answers registry op v)
  eval_expr-Answers (Expr.bin_op op lhs rhs) b registry (h, g) values =
      after-Answers _ _ (eval_expr-Answers lhs b registry h values) (λ l x.
        after-Answers _ _ (eval_expr-Answers rhs b registry g values)
          (λ r y. eval_binop-Answers op l r x))
