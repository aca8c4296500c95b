-- ===== src/Query/Results/Sortable.antt =====
-- Where the order of `apply_window_functions` in src/query/datalog/executor.rs is total.
use minigraf.Prelude.{
  ℕ, Ordering, ◌≡◌, refl, sym, ap, ◌∙◌, Bool, true, false, not, ◌&&◌, ◌||◌, some, List, [], ◌∷◌,
  arith, All,
}
use minigraf.Prelude.Int.{ℤ, pos, negsuc, compare_ℤ}
use minigraf.Prelude.Order.{flip, compare_bytes, compare_bytes_trans, eq_of_compare_bytes}
use minigraf.Graph.Float.{is_nan, magnitude}
use minigraf.Prelude.Options.{some_injective, none-ne-some}
use minigraf.Prelude.{inl, inr, Bool-cases}
use minigraf.Graph.Value.{Value}
use minigraf.Query.Eval.{FloatArithmetic}
use minigraf.Query.Aggregate.{value_cmp}
use minigraf.Query.Aggregate.Order.{compare_ℤ_trans, value_cmp-value_lt}
use minigraf.Query.Results.Specs.{Order}
use minigraf.Query.Results.SortBy.{
  is_le, is_same, is_ordered, all_keys, is_total, sort_by, sort_keyed,
}
use minigraf.Query.Results.Windows.{in_order}

-- The kinds of values that can be sorted together.
pub data SortKind : Type 0 where
  integers : SortKind
  floats : SortKind
  strings : SortKind
  unordered : SortKind

-- The floats but NaN.
abbrev pub IsOfKind : SortKind → Value → Type 0
IsOfKind integers (Value.integer i) = Unit {0}
IsOfKind floats (Value.float f) = is_nan f ≡ false
IsOfKind strings (Value.string s) = Unit {0}
IsOfKind unordered (Value.boolean b) = Unit {0}
IsOfKind unordered (Value.ref id) = Unit {0}
IsOfKind unordered (Value.keyword k) = Unit {0}
IsOfKind unordered Value.null = Unit {0}
IsOfKind kind v = ⊥

-- What `sort_by` answers is the sorted rows.
pub some-of_sort_by :
    (order : Value → Value → Ordering) (xs ys : List (Value × ℕ))
    → sort_by order xs ≡ some ys
    → sort_keyed order xs ≡ ys
some-of_sort_by order xs ys h = elim (Bool-cases (is_total order xs)) [
  | inl t ↦ some_injective (rw t at h)
  | inr t ↦ absurd (none-ne-some (rw t at h))
]

le_trans :
    {A : Type 0} (order : A → A → Ordering)
    → ((a b c : A) → order a b ≡ Ordering.lt → order b c ≡ Ordering.lt → order a c ≡ Ordering.lt)
    → ((a b : A) → order a b ≡ Ordering.eq → a ≡ b)
    → (a b c : A) → is_le (order a b) ≡ true
    → is_le (order b c) ≡ true
    → is_le (order a c) ≡ true
le_trans {A} order trans same a b c h k = by_orders (order a b) (order b c) refl refl h k
  where
    by_orders :
        (o p : Ordering)
        → order a b ≡ o
        → order b c ≡ p
        → is_le o ≡ true
        → is_le p ≡ true
        → is_le (order a c) ≡ true
    by_orders Ordering.lt Ordering.lt e f h k = ap is_le (trans a b c e f)
    by_orders Ordering.eq p e f h k = ap (λ x. is_le (order x c)) (same a b e) ∙ ap is_le f ∙ k
    by_orders Ordering.lt Ordering.eq e f h k =
        ap (λ x. is_le (order a x)) (sym (same b c f)) ∙ ap is_le e
    by_orders Ordering.lt Ordering.gt e f h k = cc
    by_orders Ordering.gt p e f h k = cc

eq_of_compare_ℤ : (a b : ℤ) → compare_ℤ a b ≡ Ordering.eq → a ≡ b
eq_of_compare_ℤ (pos a) (pos b) h = ground arith
eq_of_compare_ℤ (pos a) (negsuc b) h = cc
eq_of_compare_ℤ (negsuc a) (pos b) h = cc
eq_of_compare_ℤ (negsuc a) (negsuc b) h = ground arith

same-flip : (o p : Ordering) → p ≡ flip o → is_same p (flip o) ≡ true
same-flip Ordering.lt p h = ap (λ q. is_same q Ordering.gt) h
same-flip Ordering.eq p h = ap (λ q. is_same q Ordering.eq) h
same-flip Ordering.gt p h = ap (λ q. is_same q Ordering.lt) h

ordered :
    (o p : Ordering) (bc ac : Bool)
    → p ≡ flip o
    → (is_le o ≡ true → bc ≡ true → ac ≡ true)
    → (is_same p (flip o) && (not (is_le o && bc) || ac)) ≡ true
ordered o p bc ac h k = rw (same-flip o p h) (implied (is_le o) bc k)
  where
    implied : (a b : Bool) → (a ≡ true → b ≡ true → ac ≡ true) → (not (a && b) || ac) ≡ true
    implied true true k = k refl refl
    implied true false k = refl
    implied false b k = refl

all_keys-All :
    (kind : SortKind) (test : Value → Bool) (xs : List (Value × ℕ))
    → All (λ x. IsOfKind kind x.0) xs
    → ((v : Value) → IsOfKind kind v → test v ≡ true)
    → all_keys test xs ≡ true
unfolding all_keys
all_keys-All kind test [] all each = refl
all_keys-All kind test (x ∷ xs) (here, all) each =
    rw (each x.0 here) (all_keys-All kind test xs all each)

module _ (f64 : FloatArithmetic) where
  unordered-value_cmp : (a b : Value) → IsOfKind unordered a → value_cmp f64 a b ≡ Ordering.eq
  unfolding value_cmp
  unordered-value_cmp (Value.boolean a) b x = refl
  unordered-value_cmp (Value.ref a) b x = refl
  unordered-value_cmp (Value.keyword a) b x = refl
  unordered-value_cmp Value.null b x = refl
  unordered-value_cmp a b x = absurd x

  value_cmp_le_trans :
      (kind : SortKind) (a b c : Value)
      → IsOfKind kind a
      → IsOfKind kind b
      → IsOfKind kind c
      → is_le (value_cmp f64 a b) ≡ true
      → is_le (value_cmp f64 b c) ≡ true
      → is_le (value_cmp f64 a c) ≡ true
  unfolding value_cmp
  value_cmp_le_trans integers (Value.integer a) (Value.integer b) (Value.integer c) x y z h k =
      le_trans compare_ℤ compare_ℤ_trans eq_of_compare_ℤ a b c h k
  value_cmp_le_trans strings (Value.string a) (Value.string b) (Value.string c) x y z h k =
      le_trans compare_bytes compare_bytes_trans eq_of_compare_bytes a b c h k
  value_cmp_le_trans floats (Value.float a) (Value.float b) (Value.float c) x y z h k =
      rw (x, z)
        (le_trans compare_ℤ compare_ℤ_trans eq_of_compare_ℤ (magnitude a) (magnitude b)
          (magnitude c) (rw (x, y) at h) (rw (y, z) at k))
  value_cmp_le_trans unordered a b c x y z h k = ap is_le (unordered-value_cmp a c x)
  value_cmp_le_trans kind a b c x y z h k = ground arith

  flip-value_cmp : (a b : Value) → flip (value_cmp f64 a b) ≡ value_cmp f64 b a
  flip-value_cmp a b = let (turned, less) = value_cmp-value_lt f64 a b in sym turned

  in_order-flip :
      (order : Order) (a b : Value)
      → in_order order (value_cmp f64 b a) ≡ flip (in_order order (value_cmp f64 a b))
  in_order-flip Order.asc a b = sym (flip-value_cmp a b)
  in_order-flip Order.desc a b = ap flip (sym (flip-value_cmp a b))

  in_order_le_trans :
      (order : Order) (kind : SortKind) (a b c : Value)
      → IsOfKind kind a
      → IsOfKind kind b
      → IsOfKind kind c
      → is_le (in_order order (value_cmp f64 a b)) ≡ true
      → is_le (in_order order (value_cmp f64 b c)) ≡ true
      → is_le (in_order order (value_cmp f64 a c)) ≡ true
  in_order_le_trans Order.asc kind a b c x y z h k = value_cmp_le_trans kind a b c x y z h k
  in_order_le_trans Order.desc kind a b c x y z h k =
      ap is_le (flip-value_cmp a c)
      ∙ value_cmp_le_trans kind c b a z y x (ap is_le (sym (flip-value_cmp b c)) ∙ k)
          (ap is_le (sym (flip-value_cmp a b)) ∙ h)

  is_ordered-IsOfKind :
      (order : Order) (kind : SortKind) (a b c : Value)
      → IsOfKind kind a
      → IsOfKind kind b
      → IsOfKind kind c
      → is_ordered (λ v w. in_order order (value_cmp f64 v w)) a b c ≡ true
  is_ordered-IsOfKind order kind a b c x y z =
      ordered (in_order order (value_cmp f64 a b)) (in_order order (value_cmp f64 b a))
        (is_le (in_order order (value_cmp f64 b c))) (is_le (in_order order (value_cmp f64 a c)))
        (in_order-flip order a b) (in_order_le_trans order kind a b c x y z)

  -- `sort_by` sorts a column of one kind.
  pub sort_by-IsOfKind :
      (order : Order) (kind : SortKind) (xs : List (Value × ℕ))
      → All (λ x. IsOfKind kind x.0) xs
      → sort_by (λ a b. in_order order (value_cmp f64 a b)) xs
        ≡ some (sort_keyed (λ a b. in_order order (value_cmp f64 a b)) xs)
  sort_by-IsOfKind order kind xs all =
      let total : is_total (λ a b. in_order order (value_cmp f64 a b)) xs ≡ true =
        all_keys-All kind _ xs all (λ a x. all_keys-All kind _ xs all (λ b y.
          all_keys-All kind _ xs all (λ c z. is_ordered-IsOfKind order kind a b c x y z))) in
      rw total refl
