-- ===== src/Query/Aggregate/Order.antt =====
-- The two orders of src/query/datalog/functions.rs, `value_lt` and the one of the batch fold.
use minigraf.Prelude.{
  ℕ, Ordering, ◌≡◌, refl, ap, ◌∙◌, Bool, true, false, ◌||◌, Option, none, some, arith,
  if◌then◌else◌,
}
use mathlib.Core.Option
use minigraf.Prelude.Options.{some_injective}
use minigraf.Prelude.Int.{ℤ, pos, negsuc, compare_ℤ}
use minigraf.Prelude.Order.{flip, flip-compare, flip-compare_bytes, compare_bytes_trans}
use minigraf.Graph.Float.{partial_cmp, is_nan, magnitude}
use minigraf.Graph.Value.{Value, or_equal}
use minigraf.Query.Eval.{FloatArithmetic}
use minigraf.Query.Aggregate.{is_less, is_greater, value_lt, value_cmp}
use minigraf.Query.Aggregate.Batch.{ordering}

flip-compare_ℤ : (a b : ℤ) → compare_ℤ b a ≡ flip (compare_ℤ a b)
flip-compare_ℤ (pos a) (pos b) = flip-compare a b
flip-compare_ℤ (pos a) (negsuc b) = refl
flip-compare_ℤ (negsuc a) (pos b) = refl
flip-compare_ℤ (negsuc a) (negsuc b) = flip-compare b a

pub compare_ℤ_trans :
    (a b c : ℤ)
    → compare_ℤ a b ≡ Ordering.lt
    → compare_ℤ b c ≡ Ordering.lt
    → compare_ℤ a c ≡ Ordering.lt
compare_ℤ_trans (pos a) (pos b) (pos c) h k = ground arith
compare_ℤ_trans (pos a) (pos b) (negsuc c) h k = cc
compare_ℤ_trans (pos a) (negsuc b) c h k = cc
compare_ℤ_trans (negsuc a) (pos b) (pos c) h k = refl
compare_ℤ_trans (negsuc a) (pos b) (negsuc c) h k = cc
compare_ℤ_trans (negsuc a) (negsuc b) (pos c) h k = refl
compare_ℤ_trans (negsuc a) (negsuc b) (negsuc c) h k = ground arith

-- `partial_cmp`, by the two tests and the magnitudes.
abbrev partial_of : Bool → Bool → ℤ → ℤ → Option Ordering
partial_of na nb a b = if na || nb then none else some (compare_ℤ a b)

flip-partial_of :
    (na nb : Bool) (a b : ℤ)
    → or_equal (partial_of nb na b a) ≡ flip (or_equal (partial_of na nb a b))
flip-partial_of true true a b = refl
flip-partial_of true false a b = refl
flip-partial_of false true a b = refl
flip-partial_of false false a b = flip-compare_ℤ a b

flip-partial_cmp : (a b : ℕ) → or_equal (partial_cmp b a) ≡ flip (or_equal (partial_cmp a b))
flip-partial_cmp a b = flip-partial_of (is_nan a) (is_nan b) (magnitude a) (magnitude b)

partial_of_trans :
    (na nb nc : Bool) (a b c : ℤ)
    → or_equal (partial_of na nb a b) ≡ Ordering.lt
    → or_equal (partial_of nb nc b c) ≡ Ordering.lt
    → or_equal (partial_of na nc a c) ≡ Ordering.lt
partial_of_trans false false false a b c h k = compare_ℤ_trans a b c h k
partial_of_trans true nb nc a b c h k = cc
partial_of_trans false true nc a b c h k = cc
partial_of_trans false false true a b c h k = cc

is_less-or_equal : (o : Option Ordering) → is_less o ≡ is_less (some (or_equal o))
is_less-or_equal none = refl
is_less-or_equal (some o) = refl

is_less-flip : (o : Ordering) → is_less (some (flip o)) ≡ is_greater (some o)
is_less-flip Ordering.lt = refl
is_less-flip Ordering.eq = refl
is_less-flip Ordering.gt = refl

pub flip-ordering : (a b : Value) → ordering b a ≡ Option.map flip (ordering a b)
unfolding ordering
flip-ordering (Value.integer a) (Value.integer b) = ap some (flip-compare_ℤ a b)
flip-ordering (Value.float a) (Value.float b) = ap some (flip-partial_cmp a b)
flip-ordering (Value.string a) (Value.string b) = ap some (flip-compare_bytes a b)
flip-ordering (Value.boolean a) Value.null = refl
flip-ordering (Value.ref a) Value.null = refl
flip-ordering (Value.keyword a) Value.null = refl
flip-ordering Value.null Value.null = refl
flip-ordering a b = refl

pub ordering_trans :
    (a b c : Value)
    → ordering a b ≡ some Ordering.lt
    → ordering b c ≡ some Ordering.lt
    → ordering a c ≡ some Ordering.lt
unfolding ordering
ordering_trans (Value.integer a) (Value.integer b) (Value.integer c) h k =
    ap some (compare_ℤ_trans a b c (some_injective h) (some_injective k))
ordering_trans (Value.float a) (Value.float b) (Value.float c) h k = ap some (
    partial_of_trans (is_nan a) (is_nan b) (is_nan c) (magnitude a) (magnitude b) (magnitude c)
      (some_injective h) (some_injective k))
ordering_trans (Value.string a) (Value.string b) (Value.string c) h k =
    ap some (compare_bytes_trans a b c (some_injective h) (some_injective k))
ordering_trans a b c h k = cc

module _ (f64 : FloatArithmetic) where
  -- Where the fold compares, `value_lt` answers alike.
  pub value_lt-ordering :
      (a b : Value) (o : Ordering) → ordering a b ≡ some o → value_lt f64 a b ≡ is_less (some o)
  unfolding value_lt ordering
  value_lt-ordering (Value.integer a) (Value.integer b) o h = ap is_less h
  value_lt-ordering (Value.float a) (Value.float b) o h =
      is_less-or_equal (partial_cmp a b) ∙ ap is_less h
  value_lt-ordering (Value.string a) (Value.string b) o h = ap is_less h
  value_lt-ordering a b o h = cc

  pub value_lt-ordering_flip :
      (a b : Value) (o : Ordering) → ordering a b ≡ some o → value_lt f64 b a ≡ is_greater (some o)
  value_lt-ordering_flip a b o h =
      value_lt-ordering b a (flip o) (flip-ordering a b ∙ ap (Option.map flip) h) ∙ is_less-flip o

  -- `value_cmp` turns round with its arguments, and answers `Less` where `value_lt` holds.
  pub value_cmp-value_lt :
      (a b : Value)
      → (value_cmp f64 b a ≡ flip (value_cmp f64 a b))
        × (value_lt f64 a b ≡ is_less (some (value_cmp f64 a b)))
  unfolding value_cmp value_lt
  value_cmp-value_lt (Value.integer a) (Value.integer b) = (flip-compare_ℤ a b, refl)
  value_cmp-value_lt (Value.float a) (Value.float b) =
      (flip-partial_cmp a b, is_less-or_equal (partial_cmp a b))
  value_cmp-value_lt (Value.integer a) (Value.float b) =
      (flip-partial_cmp (f64.of_i64 a) b, is_less-or_equal (partial_cmp (f64.of_i64 a) b))
  value_cmp-value_lt (Value.float a) (Value.integer b) =
      (flip-partial_cmp a (f64.of_i64 b), is_less-or_equal (partial_cmp a (f64.of_i64 b)))
  value_cmp-value_lt (Value.string a) (Value.string b) = (flip-compare_bytes a b, refl)
  value_cmp-value_lt (Value.boolean a) Value.null = (refl, refl)
  value_cmp-value_lt (Value.ref a) Value.null = (refl, refl)
  value_cmp-value_lt (Value.keyword a) Value.null = (refl, refl)
  value_cmp-value_lt Value.null Value.null = (refl, refl)
  value_cmp-value_lt a b = (refl, refl)
