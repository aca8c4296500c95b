-- ===== src/Rules/Stratify/Least.antt =====
-- What `stratify` computes (src/query/datalog/stratification.rs).
use minigraf.Prelude.Text.{Text, bytes_eq, bytes_eq→eq}
use minigraf.Error.{Result, ok, err, ◌>>=◌, ok-of_bind, Result-cases}
use minigraf.Prelude.{
  ℕ, zero, suc, ◌+◌, ◌^◌, ◌≤◌, ◌<◌, ◌≡◌, refl, sym, ap, ◌∙◌, inl, inr, false, ◌||◌, some, List, [],
  ◌∷◌, arith, ltb, leb, if◌then◌else◌, Bool-cases, length, All,
}
use minigraf.Rules.Dependencies.{Dependency, DependencyGraph}
use minigraf.Rules.Stratify.{
  Strata, stratum, Round, required_by, relax, raise, relax_all, propagate, after_round, predicates,
  at_zero, stratify_with,
}
use minigraf.Rules.Stratify.Relax.{
  Constraint, constraints, relax_each, relax_all_lem, Relaxed-relax, stratum-raise,
  unchanged_relaxation, stratum-at_zero,
}

-- A head is as far above its dependency as the edge demands, and below `n`.
abbrev pub IsMet : ℕ → (Text → ℕ) → Constraint → Type 0
IsMet n level c = (level c.dep + c.step ≤ level c.head) × (level c.head < n)

-- An assignment of levels below `n` that meets all edges.
abbrev pub IsStratification : ℕ → List Constraint → (Text → ℕ) → Type 0
IsStratification n cs level = All (IsMet n level) cs

All_moved :
    (n : ℕ) (level moved : Text → ℕ) (cs : List Constraint)
    → ((p : Text) → level p ≡ moved p)
    → IsStratification n cs level
    → IsStratification n cs moved
All_moved n level moved [] same met = tt
All_moved n level moved (c ∷ cs) same ((step, low), met) = (
  (omega (arith, step, same c.dep, same c.head), omega (arith, low, same c.head)),
  All_moved n level moved cs same met,
)

-- A run of relaxations that ends unchanged has found every edge met.
unchanged_meets :
    (n : ℕ) (cs : List Constraint) (before after : Round)
    → n < 2 ^ 64
    → relax_each n cs before ≡ ok after
    → after.changed ≡ false
    → (before.changed ≡ false)
      × ((p : Text) → stratum p after.strata ≡ stratum p before.strata)
      × All (IsMet n (λ p. stratum p before.strata)) cs
unfolding relax_each
unchanged_meets n [] before after small e still =
    let same : before ≡ after = cc in
    (
      ap (λ (r : Round). r.changed) same ∙ still,
      λ p. ap (λ (r : Round). stratum p r.strata) (sym same),
      tt,
    )
unchanged_meets n (c ∷ cs) before after small e still =
    let (next, first, rest) = ok-of_bind (relax n c.head c.dep c.step before) (relax_each n cs) e in
    let (next_still, same, met) = unchanged_meets n cs next after small rest still in
    let r = Relaxed-relax n c before next first in
    let (still_before, low, same_before) = unchanged_relaxation n c before next r next_still in
    let bound = r.bound in
    let head = same_before c.head in
    (
      still_before,
      λ p. same p ∙ same_before p,
      (
        (omega (arith, low, bound, head), omega (arith, bound, head)),
        All_moved n (λ p. stratum p next.strata) (λ p. stratum p before.strata) cs same_before met,
      ),
    )

round_sound :
    (n : ℕ) (raised : List (Text × Text)) (edges : List (Text × List Dependency)) (strata : Strata)
    (after : Round)
    → n < 2 ^ 64
    → relax_all n raised edges (record { strata = strata; changed = false }) ≡ ok after
    → after.changed ≡ false
    → IsStratification n (constraints raised edges) (λ p. stratum p after.strata)
round_sound n raised edges strata after small e still =
    let before : Round = record { strata = strata; changed = false } in
    let (_, same, met) =
      unchanged_meets n (constraints raised edges) before after small
        (sym (relax_all_lem n raised edges before) ∙ e) still in
    All_moved n (λ p. stratum p strata) (λ p. stratum p after.strata) (constraints raised edges)
      (λ p. sym (same p)) met

propagate_sound :
    (fuel n : ℕ) (raised : List (Text × Text)) (edges : List (Text × List Dependency))
    (before strata : Strata)
    → n < 2 ^ 64
    → propagate fuel n raised edges before ≡ some (ok strata)
    → IsStratification n (constraints raised edges) (λ p. stratum p strata)
unfolding propagate
propagate_sound zero n raised edges before strata small e = cc
propagate_sound (suc fuel) n raised edges before strata small e =
    let again = λ (next : Strata). propagate fuel n raised edges next in
    elim (Result-cases (relax_all n raised edges (record { strata = before; changed = false }))) [
      | inl (failure, failed) ↦
          let wrong : some (err failure) ≡ some (ok strata) =
            sym (ap (after_round again) failed) ∙ e in
          cc
      | inr (round, relaxed) ↦
          let next : after_round again (ok round) ≡ some (ok strata) =
            sym (ap (after_round again) relaxed) ∙ e in
          elim (Bool-cases round.changed) [
            | inl changed ↦ propagate_sound fuel n raised edges round.strata strata small (
                sym (ap (λ b. if b then again round.strata else some (ok round.strata)) changed)
                ∙ next)
            | inr still ↦
                let last : some (ok round.strata) ≡ some (ok strata) =
                  sym (ap (λ b. if b then again round.strata else some (ok round.strata)) still)
                  ∙ next in
                let same : round.strata ≡ strata = cc in
                All_moved n (λ p. stratum p round.strata) (λ p. stratum p strata)
                  (constraints raised edges) (λ p. ap (stratum p) same)
                  (round_sound n raised edges before round small relaxed still)
          ]
    ]

-- The strata that `stratify` answers are a stratification: every edge is met, with the step 1 for a
-- negative or raised edge and 0 for the others, and every head is below the number of predicates.
pub stratify_with_sound :
    (raised : List (Text × Text)) (g : DependencyGraph) (strata : Strata)
    → length (predicates g) < 2 ^ 64
    → stratify_with raised g ≡ some (ok strata)
    → IsStratification (length (predicates g)) (constraints raised g.edges) (λ p. stratum p strata)
unfolding stratify_with
stratify_with_sound raised g strata small e =
    propagate_sound _ (length (predicates g)) raised g.edges (at_zero (predicates g)) strata small e

-- A relaxation below a level that meets the edge succeeds, and stays below it.
relax_below :
    (n : ℕ) (level : Text → ℕ) (c : Constraint) (before : Round)
    → ((p : Text) → stratum p before.strata ≤ level p)
    → IsMet n level c
    → (after : Round) × (relax n c.head c.dep c.step before ≡ ok after)
      × ((p : Text) → stratum p after.strata ≤ level p)
unfolding relax
relax_below n level c before below (step, low) =
    let required = required_by (stratum c.dep before.strata) c.step in
    let strata = raise c.head required before.strata in
    let bounded : (p : Text) → stratum p strata ≤ level p = λ p.
      rw (stratum-raise c.head p required before.strata) (elim (Bool-cases (bytes_eq c.head p)) [
        | inl same ↦
            rw (same, sym (bytes_eq→eq c.head p same))
              (omega (arith, below c.head, below c.dep, step))
        | inr differ ↦ rw differ (below p)
      ]) in
    let free : leb n (stratum c.head strata) ≡ false = ground (arith, bounded c.head, low) in
    (
      record {
        strata = strata;
        changed = before.changed || ltb (stratum c.head before.strata) required;
      },
      rw free refl,
      bounded,
    )

relax_each_below :
    (n : ℕ) (level : Text → ℕ) (cs : List Constraint) (before : Round)
    → ((p : Text) → stratum p before.strata ≤ level p)
    → IsStratification n cs level
    → (after : Round) × (relax_each n cs before ≡ ok after)
      × ((p : Text) → stratum p after.strata ≤ level p)
unfolding relax_each
relax_each_below n level [] before below met = (before, refl, below)
relax_each_below n level (c ∷ cs) before below (first, met) =
    let (next, relaxed, next_below) = relax_below n level c before below first in
    let (after, rest, after_below) = relax_each_below n level cs next next_below met in
    (after, ap (λ r. r >>= relax_each n cs) relaxed ∙ rest, after_below)

propagate_below :
    (fuel n : ℕ) (raised : List (Text × Text)) (edges : List (Text × List Dependency))
    (level : Text → ℕ) (before : Strata) (outcome : Result Strata)
    → ((p : Text) → stratum p before ≤ level p)
    → IsStratification n (constraints raised edges) level
    → propagate fuel n raised edges before ≡ some outcome
    → (strata : Strata) × (outcome ≡ ok strata) × ((p : Text) → stratum p strata ≤ level p)
unfolding propagate
propagate_below zero n raised edges level before outcome below met e = cc
propagate_below (suc fuel) n raised edges level before outcome below met e =
    let again = λ (next : Strata). propagate fuel n raised edges next in
    let start : Round = record { strata = before; changed = false } in
    let (round, each, round_below) =
      relax_each_below n level (constraints raised edges) start below met in
    let relaxed = relax_all_lem n raised edges start ∙ each in
    let next : after_round again (ok round) ≡ some outcome =
      sym (ap (after_round again) relaxed) ∙ e in
    elim (Bool-cases round.changed) [
      | inl changed ↦
          propagate_below fuel n raised edges level round.strata outcome round_below met (
            sym (ap (λ b. if b then again round.strata else some (ok round.strata)) changed) ∙ next)
      | inr still ↦
          let last : some (ok round.strata) ≡ some outcome =
            sym (ap (λ b. if b then again round.strata else some (ok round.strata)) still) ∙ next in
          (round.strata, cc, round_below)
    ]

-- Where some assignment of levels below the number of predicates meets all edges, an answer of
-- `stratify` is never the error INT-054, and its strata are nowhere above the levels.
pub stratify_with_least :
    (raised : List (Text × Text)) (g : DependencyGraph) (level : Text → ℕ) (outcome : Result Strata)
    → IsStratification (length (predicates g)) (constraints raised g.edges) level
    → stratify_with raised g ≡ some outcome
    → (strata : Strata) × (outcome ≡ ok strata) × ((p : Text) → stratum p strata ≤ level p)
unfolding stratify_with
stratify_with_least raised g level outcome met e =
    propagate_below _ (length (predicates g)) raised g.edges level (at_zero (predicates g)) outcome
      (λ p. rw (stratum-at_zero p (predicates g)) (omega arith)) met e
