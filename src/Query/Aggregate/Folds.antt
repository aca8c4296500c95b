-- ===== src/Query/Aggregate/Folds.antt =====
-- The fold of `min` and `max` beside their accumulators (src/query/datalog/functions.rs).
use minigraf.Prelude.{
  Ordering, ◌≡◌, refl, sym, ap, ◌∙◌, inl, inr, Bool, true, false, Option, none, some, List, [], ◌∷◌,
  if◌then◌else◌, Bool-cases, All,
}
use minigraf.Prelude.Options.{none-ne-some}
use minigraf.Error.{ok_injective, coded, int043, ok, err, ◌>>=◌}
use minigraf.Graph.Value.{Value}
use minigraf.Query.Eval.{FloatArithmetic}
use minigraf.Query.Aggregate.{
  AggState, WindowOps, is_less, is_greater, min_ops, max_ops, least_value, greatest_value, step_min,
  step_max, value_lt, run_steps,
}
use minigraf.Query.Aggregate.Batch.{
  Extreme, lowest, highest, ordering, replaces, chosen, fold_extreme, has_variant, extreme_of,
}
use minigraf.Query.Aggregate.Order.{value_lt-ordering, value_lt-ordering_flip}

-- The values that are aggregated are those that are not null.
abbrev pub IsPresent : Value → Type 0
IsPresent Value.null = ⊥
IsPresent v = Unit {0}

ordering-IsPresent : (a v : Value) (o : Ordering) → ordering a v ≡ some o → IsPresent v
unfolding ordering
ordering-IsPresent (Value.integer a) Value.null o h = absurd (none-ne-some h)
ordering-IsPresent (Value.float a) Value.null o h = absurd (none-ne-some h)
ordering-IsPresent (Value.string a) Value.null o h = absurd (none-ne-some h)
ordering-IsPresent (Value.boolean a) Value.null o h = absurd (none-ne-some h)
ordering-IsPresent (Value.ref a) Value.null o h = absurd (none-ne-some h)
ordering-IsPresent (Value.keyword a) Value.null o h = absurd (none-ne-some h)
ordering-IsPresent Value.null Value.null o h = absurd (none-ne-some h)
ordering-IsPresent a v o h = tt

module _ (f64 : FloatArithmetic) where
  unfoldable pub extreme_ops : Extreme → WindowOps
  extreme_ops lowest = min_ops f64
  extreme_ops highest = max_ops f64

  step_min-least_value :
      (v : Value) (current : Option Value)
      → IsPresent v
      → step_min f64 (AggState.min_max current) v ≡ AggState.min_max (least_value f64 v current)
  step_min-least_value Value.null current h = absurd h
  step_min-least_value v current h = refl

  step_max-greatest_value :
      (v : Value) (current : Option Value)
      → IsPresent v
      → step_max f64 (AggState.min_max current) v ≡ AggState.min_max (greatest_value f64 v current)
  step_max-greatest_value Value.null current h = absurd h
  step_max-greatest_value v current h = refl

  picked :
      (test : Bool) (v acc : Value)
      → (if test then some v else some acc) ≡ some (if test then v else acc)
  picked true v acc = refl
  picked false v acc = refl

  lowest-is_greater : (o : Ordering) → is_greater (some o) ≡ replaces lowest o
  lowest-is_greater Ordering.lt = refl
  lowest-is_greater Ordering.eq = refl
  lowest-is_greater Ordering.gt = refl

  highest-is_less : (o : Ordering) → is_less (some o) ≡ replaces highest o
  highest-is_less Ordering.lt = refl
  highest-is_less Ordering.eq = refl
  highest-is_less Ordering.gt = refl

  step_extreme :
      (extreme : Extreme) (acc v : Value) (o : Ordering)
      → ordering acc v ≡ some o
      → (extreme_ops extreme).step (AggState.min_max (some acc)) v
        ≡ AggState.min_max (some (if replaces extreme o then v else acc))
  unfolding extreme_ops
  step_extreme lowest acc v o h =
      step_min-least_value v (some acc) (ordering-IsPresent acc v o h)
      ∙ ap AggState.min_max (
          picked (value_lt f64 v acc) v acc
          ∙ ap (λ b. some (if b then v else acc))
              (value_lt-ordering_flip f64 acc v o h ∙ lowest-is_greater o))
  step_extreme highest acc v o h =
      step_max-greatest_value v (some acc) (ordering-IsPresent acc v o h)
      ∙ ap AggState.min_max (
          picked (value_lt f64 acc v) v acc
          ∙ ap (λ b. some (if b then v else acc))
              (value_lt-ordering f64 acc v o h ∙ highest-is_less o))

  run_steps-fold_extreme :
      (extreme : Extreme) (acc r : Value) (values : List Value)
      → fold_extreme extreme acc values ≡ ok r
      → run_steps (extreme_ops extreme) (AggState.min_max (some acc)) values
        ≡ AggState.min_max (some r)
  unfolding run_steps fold_extreme
  run_steps-fold_extreme extreme acc r [] h = ap (λ v. AggState.min_max (some v)) (ok_injective h)
  run_steps-fold_extreme extreme acc r (v ∷ values) h =
      compared (ordering acc v) refl h (λ next. run_steps-fold_extreme extreme next r values)
    where
      compared :
          (o : Option Ordering)
          → ordering acc v ≡ o
          → (chosen extreme acc v o >>= λ next. fold_extreme extreme next values) ≡ ok r
          → ((next : Value)
              → fold_extreme extreme next values ≡ ok r
              → run_steps (extreme_ops extreme) (AggState.min_max (some next)) values
                ≡ AggState.min_max (some r))
          → run_steps
              (extreme_ops extreme)
              ((extreme_ops extreme).step (AggState.min_max (some acc)) v)
              values
            ≡ AggState.min_max (some r)
      compared none e k rest = cc
      compared (some o) e k rest =
          ap (λ s. run_steps (extreme_ops extreme) s values) (step_extreme extreme acc v o e)
          ∙ rest (if replaces extreme o then v else acc) k

  -- The first value is compared with itself.
  self_chosen :
      (extreme : Extreme) (o : Ordering) (v : Value) → (if replaces extreme o then v else v) ≡ v
  self_chosen extreme o v = elim (Bool-cases (replaces extreme o)) [
    | inl e ↦ rw e refl
    | inr e ↦ rw e refl
  ]

  first_step :
      (extreme : Extreme) (first : Value)
      → IsPresent first
      → (extreme_ops extreme).step (AggState.min_max none) first ≡ AggState.min_max (some first)
  unfolding extreme_ops
  first_step lowest first h = step_min-least_value first none h
  first_step highest first h = step_max-greatest_value first none h

  after_first :
      (extreme : Extreme) (first r : Value) (values : List Value)
      → fold_extreme extreme first (first ∷ values) ≡ ok r
      → run_steps (extreme_ops extreme) (AggState.min_max (some first)) values
        ≡ AggState.min_max (some r)
  unfolding fold_extreme
  after_first extreme first r values h = compared (ordering first first) h
    where
      compared :
          (o : Option Ordering)
          → (chosen extreme first first o >>= λ next. fold_extreme extreme next values) ≡ ok r
          → run_steps (extreme_ops extreme) (AggState.min_max (some first)) values
            ≡ AggState.min_max (some r)
      compared none k = cc
      compared (some o) k =
          run_steps-fold_extreme extreme first r values
            (sym (ap (λ v. fold_extreme extreme v values) (self_chosen extreme o first)) ∙ k)

  pub run_steps-extreme_of :
      (extreme : Extreme) (r : Value) (values : List Value)
      → All IsPresent values
      → extreme_of extreme values ≡ ok r
      → run_steps (extreme_ops extreme) (AggState.min_max none) values ≡ AggState.min_max (some r)
  unfolding extreme_of run_steps
  run_steps-extreme_of extreme r [] all h = cc
  run_steps-extreme_of extreme r (first ∷ values) (here, all) h =
      ap (λ s. run_steps (extreme_ops extreme) s values) (first_step extreme first here)
      ∙ one_variant (has_variant first values) h
    where
      one_variant :
          (same : Bool)
          → (if same then fold_extreme extreme first (first ∷ values) else err (coded int043))
            ≡ ok r
          → run_steps (extreme_ops extreme) (AggState.min_max (some first)) values
            ≡ AggState.min_max (some r)
      one_variant false k = cc
      one_variant true k = after_first extreme first r values k
