-- ===== src/Rules/Stratify/Answers.antt =====
-- `stratify` as a whole: it answers, and its answer is right (src/query/datalog/stratification.rs).
use minigraf.Prelude.Text.{Text}
use minigraf.Error.{Result, ok, err}
use minigraf.Prelude.{
  ℕ, ◌^◌, ◌≤◌, ◌<◌, ◌≡◌, refl, ap, ◌∙◌, inl, inr, Bool, true, false, not, ◌&&◌, some, List, [], ◌∷◌,
  ◌++◌, Bool-cases, length,
}
use minigraf.Rules.Dependencies.{Dependency, DependencyGraph, holds, reaches}
use minigraf.Rules.Dependencies.Reach.{reaches_lem}
use minigraf.Rules.Stratify.{
  Strata, stratum, predicates, stratify, stratify_with, raised_edges, raised_deps, with_raised,
}
use minigraf.Rules.Stratify.Relax.{Constraint, constraints}
use minigraf.Rules.Stratify.Least.{IsStratification, stratify_with_sound, stratify_with_least}
use minigraf.Rules.Stratify.Rounds.{stratify_with_total}

raised_deps_total :
    (g : DependencyGraph) (head : Text) (deps : List Dependency)
    → (raised : List (Text × Text)) × (raised_deps g head deps ≡ some raised)
unfolding raised_deps
raised_deps_total g head [] = ([], refl)
raised_deps_total g head ((dep, negative) ∷ deps) =
    let (rest, known) = raised_deps_total g head deps in
    elim (Bool-cases (not negative && holds dep g.mixed)) [
      | inl asks ↦ let (answer, e, _) = reaches_lem g dep head in by_answer rest known asks answer e
      | inr skips ↦ (rest, rw (known, skips) refl)
    ]
  where
    by_answer :
        (rest : List (Text × Text))
        → raised_deps g head deps ≡ some rest
        → not negative && holds dep g.mixed ≡ true
        → (answer : Bool) → reaches g dep head ≡ some answer
        → (raised : List (Text × Text)) × (raised_deps g head ((dep, negative) ∷ deps)
            ≡ some raised)
    by_answer rest known asks true e = (rest, rw (known, asks, e) refl)
    by_answer rest known asks false e = ((head, dep) ∷ rest, rw (known, asks, e) refl)

raised_edges_total :
    (g : DependencyGraph) (edges : List (Text × List Dependency))
    → (raised : List (Text × Text)) × (raised_edges g edges ≡ some raised)
unfolding raised_edges
raised_edges_total g [] = ([], refl)
raised_edges_total g ((head, deps) ∷ edges) =
    let (rest, known) = raised_edges_total g edges in
    let (new, found) = raised_deps_total g head deps in (new ++ rest, rw (known, found) refl)

stratify_raised :
    (g : DependencyGraph) (raised : List (Text × Text))
    → raised_edges g g.edges ≡ some raised
    → stratify g ≡ stratify_with raised g
unfolding stratify
stratify_raised g raised e = ap (with_raised g) e

-- What an answer of `stratify` says, with the edges of the graph as constraints.
abbrev pub IsAnswer : ℕ → List Constraint → Result Strata → Type 0
IsAnswer n cs (ok strata) =
    IsStratification n cs (λ p. stratum p strata)
    × ((level : Text → ℕ) → IsStratification n cs level → (p : Text) → stratum p strata ≤ level p)
IsAnswer n cs (err e) = (level : Text → ℕ) → IsStratification n cs level → ⊥

IsAnswer-stratify_with :
    (raised : List (Text × Text)) (g : DependencyGraph) (outcome : Result Strata)
    → length (predicates g) < 2 ^ 64
    → stratify_with raised g ≡ some outcome
    → IsAnswer (length (predicates g)) (constraints raised g.edges) outcome
IsAnswer-stratify_with raised g (ok strata) small e = (
  stratify_with_sound raised g strata small e,
  λ level met p.
      let (found, same, least) = stratify_with_least raised g level (ok strata) met e in
      let there : strata ≡ found = cc in rw there (least p),
)
IsAnswer-stratify_with raised g (err e) small eq =
    λ level met. let (found, same, least) = stratify_with_least raised g level (err e) met eq in cc

-- `stratify` always answers, its searches and rounds included. With the raised edges that it finds
-- itself, an answer with strata is the least stratification (every negative or raised edge is climbed
-- by one, every other edge is not descended, every head is below the number of predicates), and the
-- error INT-054 says that there is none.
pub stratify_lem :
    (g : DependencyGraph)
    → length (predicates g) < 2 ^ 64
    → (raised : List (Text × Text)) × (outcome : Result Strata) × (raised_edges g g.edges
        ≡ some raised)
      × (stratify g ≡ some outcome)
      × IsAnswer (length (predicates g)) (constraints raised g.edges) outcome
stratify_lem g small =
    let (raised, found) = raised_edges_total g g.edges in
    let (outcome, answered) = stratify_with_total raised g in
    (
      raised,
      outcome,
      found,
      stratify_raised g raised found ∙ answered,
      IsAnswer-stratify_with raised g outcome small answered,
    )
