-- ===== src/Query/Aggregate/Extremes.antt =====
-- What `min` and `max` of `apply_builtin_aggregate` answer (src/query/datalog/functions.rs).
use mathlib.Core.Option
use mathlib.Core.Path.{subst}
use minigraf.Prelude.OrderedMap.Entries.{IsIn}
use minigraf.Prelude.{
  ℕ, ◌<◌, arith, Ordering, ◌≡◌, refl, sym, ap, ◌∙◌, ◌⊎◌, inl, inr, Bool, true, false, Option, none,
  some, List, [], ◌∷◌, if◌then◌else◌, All,
}
use minigraf.Prelude.Options.{some_injective}
use minigraf.Prelude.Order.{flip}
use minigraf.Error.{ok_injective, coded, int043, ok, err, ◌>>=◌}
use minigraf.Graph.Value.{Value, variant}
use minigraf.Query.Aggregate.Batch.{
  Extreme, lowest, highest, ordering, replaces, chosen, fold_extreme, has_variant, extreme_of,
}
use minigraf.Query.Aggregate.Order.{flip-ordering, ordering_trans}

-- The comparison at which the later value is taken.
abbrev pub winning : Extreme → Ordering
winning lowest = Ordering.gt
winning highest = Ordering.lt

abbrev pub Beats : Extreme → Value → Value → Type 0
Beats extreme acc v = ordering acc v ≡ some (winning extreme)

gt_turned : (a b : Value) → ordering a b ≡ some Ordering.gt → ordering b a ≡ some Ordering.lt
gt_turned a b h = flip-ordering a b ∙ ap (Option.map flip) h

lt_turned : (a b : Value) → ordering a b ≡ some Ordering.lt → ordering b a ≡ some Ordering.gt
lt_turned a b h = flip-ordering a b ∙ ap (Option.map flip) h

Beats-trans :
    (extreme : Extreme) (a b c : Value) → Beats extreme a b → Beats extreme b c → Beats extreme a c
Beats-trans highest a b c h k = ordering_trans a b c h k
Beats-trans lowest a b c h k =
    lt_turned c a (ordering_trans c b a (gt_turned b c k) (gt_turned a b h))

-- No value beats itself.
not_own_winner : (extreme : Extreme) → ¬ (flip (winning extreme) ≡ winning extreme)
not_own_winner lowest h = cc
not_own_winner highest h = cc

Beats-irrefl : (extreme : Extreme) (v : Value) → ¬ Beats extreme v v
Beats-irrefl extreme v h =
    not_own_winner extreme
      (some_injective (sym (ap (Option.map flip) h) ∙ sym (flip-ordering v v) ∙ h))

-- The value that is kept is the first or beats it.
abbrev IsKept : Extreme → Value → Value → Type 0
IsKept extreme acc r = (r ≡ acc) ⊎ Beats extreme acc r

not_beaten :
    (extreme : Extreme) (acc r v : Value)
    → IsKept extreme acc r
    → ¬ Beats extreme acc v
    → ¬ Beats extreme r v
not_beaten extreme acc r v (inl same) no_win win = no_win (subst (λ x. Beats extreme x v) same win)
not_beaten extreme acc r v (inr beat) no_win win = no_win (Beats-trans extreme acc r v beat win)

IsKept-later :
    (extreme : Extreme) (acc v r : Value)
    → Beats extreme acc v
    → IsKept extreme v r
    → IsKept extreme acc r
IsKept-later extreme acc v r win (inl same) = inr (subst (Beats extreme acc) (sym same) win)
IsKept-later extreme acc v r win (inr beat) = inr (Beats-trans extreme acc v r win beat)

replaced : (extreme : Extreme) (o : Ordering) → replaces extreme o ≡ true → o ≡ winning extreme
replaced lowest Ordering.gt h = refl
replaced highest Ordering.lt h = refl
replaced lowest Ordering.lt h = cc
replaced lowest Ordering.eq h = cc
replaced highest Ordering.gt h = cc
replaced highest Ordering.eq h = cc

winner_replaces : (extreme : Extreme) → replaces extreme (winning extreme) ≡ true
winner_replaces lowest = refl
winner_replaces highest = refl

true_ne_false : ¬ (true ≡ false)
true_ne_false h = cc

-- What `fold_extreme` keeps of a first value and the values that follow.
Folded : Extreme → Value → List Value → Value → Type 0
Folded extreme acc values r =
    IsKept extreme acc r × IsIn r (acc ∷ values) × All (λ v. ¬ Beats extreme r v) values

Folded-step :
    (extreme : Extreme) (acc v r : Value) (values : List Value) (o : Ordering) (b : Bool)
    → ordering acc v ≡ some o
    → replaces extreme o ≡ b
    → Folded extreme (if b then v else acc) values r
    → Folded extreme acc (v ∷ values) r
unfolding Folded
Folded-step extreme acc v r values o true e won (kept, among, best) = (
  IsKept-later extreme acc v r (e ∙ ap some (replaced extreme o won)) kept,
  inr among,
  (not_beaten extreme v r v kept (Beats-irrefl extreme v), best),
)
Folded-step extreme acc v r values o false e lost (kept, among, best) =
    (kept, later among, (not_beaten extreme acc r v kept not_won, best))
  where
    later : IsIn r (acc ∷ values) → IsIn r (acc ∷ v ∷ values)
    later (inl same) = inl same
    later (inr among) = inr (inr among)

    not_won : ¬ Beats extreme acc v
    not_won win = true_ne_false (
        sym (winner_replaces extreme) ∙ ap (replaces extreme) (some_injective (sym win ∙ e)) ∙ lost)

fold_extreme-Folded :
    (extreme : Extreme) (acc r : Value) (values : List Value)
    → fold_extreme extreme acc values ≡ ok r
    → Folded extreme acc values r
unfolding fold_extreme Folded
fold_extreme-Folded extreme acc r [] h =
    (inl (sym (ok_injective h)), inl (sym (ok_injective h)), tt)
fold_extreme-Folded extreme acc r (v ∷ values) h =
    compared (ordering acc v) refl h (λ next. fold_extreme-Folded extreme next r values)
  where
    compared :
        (o : Option Ordering)
        → ordering acc v ≡ o
        → (chosen extreme acc v o >>= λ next. fold_extreme extreme next values) ≡ ok r
        → ((next : Value) → fold_extreme extreme next values ≡ ok r → Folded extreme next values r)
        → Folded extreme acc (v ∷ values) r
    compared none e k rest = cc
    compared (some o) e k rest =
        Folded-step extreme acc v r values o (replaces extreme o) e refl
          (rest (if replaces extreme o then v else acc) k)

best-of_extreme :
    (extreme : Extreme) (values : List Value) (r : Value)
    → extreme_of extreme values ≡ ok r
    → IsIn r values × All (λ v. ¬ Beats extreme r v) values
unfolding extreme_of Folded
best-of_extreme extreme [] r h = cc
best-of_extreme extreme (first ∷ values) r h = one_variant (has_variant first values) h
  where
    among_values : IsIn r (first ∷ first ∷ values) → IsIn r (first ∷ values)
    among_values (inl same) = inl same
    among_values (inr among) = among

    one_variant :
        (same : Bool)
        → (if same then fold_extreme extreme first (first ∷ values) else err (coded int043)) ≡ ok r
        → IsIn r (first ∷ values) × All (λ v. ¬ Beats extreme r v) (first ∷ values)
    one_variant false k = cc
    one_variant true k =
        let (kept, among, best) = fold_extreme-Folded extreme first r (first ∷ values) k in
        (among_values among, best)

-- Strings, integers and floats are compared; values of one such type always.
ordering-some :
    (a b : Value) → variant a ≡ variant b → variant b < 3 → (o : Ordering) × (ordering a b ≡ some o)
unfolding ordering
ordering-some (Value.integer a) (Value.integer b) e h = (_, refl)
ordering-some (Value.float a) (Value.float b) e h = (_, refl)
ordering-some (Value.string a) (Value.string b) e h = (_, refl)
ordering-some a b e h = absurd (omega arith)

has_variant-of_all :
    (first : Value) (values : List Value)
    → All (λ v. variant v ≡ variant first) values
    → has_variant first values ≡ true
unfolding has_variant
has_variant-of_all first [] all = refl
has_variant-of_all first (v ∷ values) (here, all) =
    ground (arith, has_variant-of_all first values all)

variant_chosen :
    (b : Bool) (n : ℕ) (v acc : Value)
    → variant v ≡ n
    → variant acc ≡ n
    → variant (if b then v else acc) ≡ n
variant_chosen true n v acc h k = h
variant_chosen false n v acc h k = k

fold_extreme-ok :
    (extreme : Extreme) (n : ℕ) (acc : Value) (values : List Value)
    → n < 3
    → variant acc ≡ n
    → All (λ v. variant v ≡ n) values
    → (r : Value) × (fold_extreme extreme acc values ≡ ok r)
unfolding fold_extreme
fold_extreme-ok extreme n acc [] h e all = (acc, refl)
fold_extreme-ok extreme n acc (v ∷ values) h e (here, all) =
    let (o, compared) = ordering-some acc v (e ∙ sym here) (omega (arith, here, h)) in
    let next = if replaces extreme o then v else acc in
    let (r, answer) =
      fold_extreme-ok extreme n next values h (variant_chosen (replaces extreme o) n v acc here e)
        all in
    (r, ap (λ c. chosen extreme acc v c >>= λ x. fold_extreme extreme x values) compared ∙ answer)

-- Over one string, integer or float and values of the same type, min and max answer one of the
-- values that no other value beats; a NaN neither beats nor is beaten.
pub extreme_of-best :
    (extreme : Extreme) (first : Value) (values : List Value)
    → variant first < 3
    → All (λ v. variant v ≡ variant first) values
    → (r : Value) × (extreme_of extreme (first ∷ values) ≡ ok r)
      × IsIn r (first ∷ values)
      × All (λ v. ¬ Beats extreme r v) (first ∷ values)
unfolding extreme_of
extreme_of-best extreme first values h all =
    let (r, folded_to) =
      fold_extreme-ok extreme (variant first) first (first ∷ values) h refl (refl, all) in
    let answer : extreme_of extreme (first ∷ values) ≡ ok r =
      rw (has_variant-of_all first values all) folded_to in
    let (among, best) = best-of_extreme extreme (first ∷ values) r answer in
    (r, answer, among, best)
