-- ===== src/Rules/Stratify/Rounds.antt =====
-- `stratify` answers within its rounds (src/query/datalog/stratification.rs).
use minigraf.Prelude.Text.{Text, bytes_eq, bytes_eq_refl, bytes_eq→eq}
use minigraf.Error.{Result, ok, err, ok-of_bind, Result-cases}
use minigraf.Prelude.{
  ℕ, zero, suc, ◌+◌, ◌*◌, ◌≤◌, ◌<◌, ◌≡◌, refl, sym, ap, ◌∙◌, inl, inr, true, false, ◌||◌, some,
  List, [], ◌∷◌, ◌++◌, arith, if◌then◌else◌, Bool-cases, length, set, All, All-append,
}
use native.Mathlib.Nat.{suc-mul}
use minigraf.Rules.Dependencies.{Dependency, DependencyGraph, holds, add_name, names}
use minigraf.Rules.Stratify.{
  Strata, stratum, Round, relax, relax_all, propagate, after_round, predicates, all_predicates,
  add_names, at_zero, stratify_with,
}
use minigraf.Rules.Stratify.Relax.{
  Constraint, constraints, constraints_of, relax_each, relax_all_lem, Relaxed, Relaxed-relax,
  stratum-at_zero,
}

-- The sum of the strata of some predicates.
total : List Text → Strata → ℕ
total [] strata = 0
total (p ∷ ps) strata = stratum p strata + total ps strata

total_mono :
    (ps : List Text) (s t : Strata)
    → ((p : Text) → stratum p s ≤ stratum p t)
    → total ps s ≤ total ps t
unfolding total
total_mono [] s t h = omega arith
total_mono (p ∷ ps) s t h = omega (arith, h p, total_mono ps s t h)

total_strict :
    (ps : List Text) (q : Text) (s t : Strata)
    → ((p : Text) → stratum p s ≤ stratum p t)
    → holds q ps ≡ true
    → stratum q s < stratum q t
    → total ps s < total ps t
unfolding total
total_strict [] q s t h mem l = cc
total_strict (p ∷ ps) q s t h mem l = elim (Bool-cases (bytes_eq q p)) [
  | inl same ↦
      let qp = bytes_eq→eq q p same in
      omega (arith, ap (λ x. stratum x s) qp, ap (λ x. stratum x t) qp, total_mono ps s t h)
  | inr differ ↦ omega (arith, h p, total_strict ps q s t h (ground (arith, differ)) l)
]

linear : (a b k n : ℕ) → a ≤ n → b ≤ k * n → a + b ≤ suc k * n
linear a b k n h l = omega (arith, h, l, suc-mul k n)

total_bound :
    (n : ℕ) (ps : List Text) (s : Strata)
    → ((p : Text) → stratum p s ≤ n)
    → total ps s ≤ length ps * n
unfolding total
total_bound n [] s h = omega arith
total_bound n (p ∷ ps) s h =
    linear (stratum p s) (total ps s) (length ps) n (h p) (total_bound n ps s h)

ap_le : {A : Type 0} (f : A → ℕ) {a b : A} → a ≡ b → f a ≤ f b
ap_le f e = omega (arith, ap f e)

-- The heads of all edges are among the predicates.
abbrev HasHeads : List Text → List Constraint → Type 0
HasHeads ps cs = All (λ c. holds c.head ps ≡ true) cs

-- What one relaxation does to the sum.
Relaxed-total :
    (n : ℕ) (ps : List Text) (c : Constraint) (before after : Round)
    → Relaxed n c before after
    → holds c.head ps ≡ true
    → ((p : Text) → stratum p before.strata ≤ n)
    → ((p : Text) → stratum p after.strata ≤ n)
      × (total ps before.strata ≤ total ps after.strata)
      × (before.changed ≡ false
          → after.changed ≡ true
          → total ps before.strata < total ps after.strata)
Relaxed-total n ps c before after r head below = (
  λ p. elim (Bool-cases (bytes_eq c.head p)) [
    | inl same ↦ rw⁻¹ (bytes_eq→eq c.head p same) (omega (arith, r.bound))
    | inr differ ↦ omega (arith, r.others p differ, below p)
  ],
  total_mono ps before.strata after.strata r.above,
  λ still moved.
      total_strict ps c.head before.strata after.strata r.above head
        (ground (arith, r.head_lem, r.changed_lem)),
)

-- What a run of relaxations that succeeds does to the sum.
relax_each-total :
    (n : ℕ) (ps : List Text) (cs : List Constraint) (before after : Round)
    → HasHeads ps cs
    → ((p : Text) → stratum p before.strata ≤ n)
    → relax_each n cs before ≡ ok after
    → ((p : Text) → stratum p after.strata ≤ n)
      × (total ps before.strata ≤ total ps after.strata)
      × (before.changed ≡ false
          → after.changed ≡ true
          → total ps before.strata < total ps after.strata)
unfolding relax_each
relax_each-total n ps [] before after heads below e =
    let same : before ≡ after = cc in
    (
      λ p. rw⁻¹ same (below p),
      ap_le (total ps) (ap (λ (r : Round). r.strata) same),
      λ still moved. absurd (ground (arith, ap (λ (r : Round). r.changed) same)),
    )
relax_each-total n ps (c ∷ cs) before after (head, heads) below e =
    let (next, first, rest) = ok-of_bind (relax n c.head c.dep c.step before) (relax_each n cs) e in
    let r = Relaxed-relax n c before next first in
    let (next_below, first_mono, first_strict) = Relaxed-total n ps c before next r head below in
    let (after_below, mono, strict) = relax_each-total n ps cs next after heads next_below rest in
    (
      after_below,
      omega (arith, mono, first_mono),
      λ still moved. elim (Bool-cases next.changed) [
        | inl now ↦ omega (arith, mono, first_strict still now)
        | inr later ↦ omega (arith, first_mono, strict later moved)
      ],
    )

propagate-total :
    (fuel n : ℕ) (ps : List Text) (raised : List (Text × Text))
    (edges : List (Text × List Dependency)) (before : Strata)
    → HasHeads ps (constraints raised edges)
    → ((p : Text) → stratum p before ≤ n)
    → length ps * n < fuel + total ps before
    → (outcome : Result Strata) × (propagate fuel n raised edges before ≡ some outcome)
unfolding propagate
propagate-total zero n ps raised edges before heads below h =
    absurd (omega (arith, h, total_bound n ps before below))
propagate-total (suc fuel) n ps raised edges before heads below h =
    let again = λ (next : Strata). propagate fuel n raised edges next in
    let start : Round = record { strata = before; changed = false } in
    elim (Result-cases (relax_all n raised edges start)) [
      | inl (failure, failed) ↦ (err failure, ap (after_round again) failed)
      | inr (round, relaxed) ↦
          let (round_below, mono, strict) =
            relax_each-total n ps (constraints raised edges) start round heads below
              (sym (relax_all_lem n raised edges start) ∙ relaxed) in
          elim (Bool-cases round.changed) [
            | inl changed ↦
                let (outcome, rest) =
                  propagate-total fuel n ps raised edges round.strata heads round_below
                    (omega (arith, h, strict refl changed)) in
                (
                  outcome,
                  ap (after_round again) relaxed
                      ∙ ap (λ b. if b then again round.strata else some (ok round.strata)) changed
                      ∙ rest,
                )
            | inr still ↦ (
              ok round.strata,
              ap (after_round again) relaxed
                  ∙ ap (λ b. if b then again round.strata else some (ok round.strata)) still,
            )
          ]
    ]

any-append : (p : Text) (xs ys : List Text) → holds p (xs ++ ys) ≡ (holds p xs || holds p ys)
any-append p [] ys = refl
any-append p (x ∷ xs) ys = ap (λ b. bytes_eq p x || b) (any-append p xs ys) ∙ ground arith

holds-add_name :
    (p q : Text) (set : List Text) → holds p set ≡ true → holds p (add_name q set) ≡ true
holds-add_name p q set h = elim (Bool-cases (holds q set)) [
  | inl there ↦ rw there h
  | inr new ↦ rw (new, any-append p set (q ∷ []), h) refl
]

holds-add_name_self : (p : Text) (set : List Text) → holds p (add_name p set) ≡ true
holds-add_name_self p set = elim (Bool-cases (holds p set)) [
  | inl there ↦ rw there there
  | inr new ↦ rw (new, any-append p set (p ∷ []), new, bytes_eq_refl p) refl
]

holds-add_names :
    (p : Text) (qs set : List Text) → holds p set ≡ true → holds p (add_names qs set) ≡ true
unfolding add_names
holds-add_names p [] set h = h
holds-add_names p (q ∷ qs) set h = holds-add_names p qs (add_name q set) (holds-add_name p q set h)

holds-all_predicates :
    (p : Text) (edges : List (Text × List Dependency)) (set : List Text)
    → holds p set ≡ true
    → holds p (all_predicates edges set) ≡ true
unfolding all_predicates
holds-all_predicates p [] set h = h
holds-all_predicates p ((head, deps) ∷ edges) set h =
    holds-all_predicates p edges _ (holds-add_names p (names deps) _ (holds-add_name p head set h))

HasHeads-constraints_of :
    (ps : List Text) (raised : List (Text × Text)) (head : Text) (deps : List Dependency)
    → holds head ps ≡ true
    → HasHeads ps (constraints_of raised head deps)
unfolding constraints_of
HasHeads-constraints_of ps raised head [] h = tt
HasHeads-constraints_of ps raised head (d ∷ deps) h =
    (h, HasHeads-constraints_of ps raised head deps h)

HasHeads-constraints :
    (raised : List (Text × Text)) (edges : List (Text × List Dependency)) (set : List Text)
    → HasHeads (all_predicates edges set) (constraints raised edges)
unfolding all_predicates constraints
HasHeads-constraints raised [] set = tt
HasHeads-constraints raised ((head, deps) ∷ edges) set =
    All-append _ (constraints_of raised head deps) (constraints raised edges)
      (HasHeads-constraints_of _ raised head deps (
        holds-all_predicates head edges _
          (holds-add_names head (names deps) _ (holds-add_name_self head set))))
      (HasHeads-constraints raised edges _)

-- Once its raised edges are known, `stratify` answers: a round that changes something raises the sum
-- of the strata, which are at most as many as the predicates and each at most their number.
pub stratify_with_total :
    (raised : List (Text × Text)) (g : DependencyGraph)
    → (outcome : Result Strata) × (stratify_with raised g ≡ some outcome)
unfolding stratify_with
stratify_with_total raised g =
    let ps = predicates g in
    propagate-total (suc (length ps * length ps)) (length ps) ps raised g.edges (at_zero ps)
      (HasHeads-constraints raised g.edges []) (λ p. rw (stratum-at_zero p ps) (omega arith))
      (omega arith)
