-- ===== src/Rules/Dependencies/Reach.antt =====
-- `DependencyGraph::reaches` is reachability, and ends (src/query/datalog/stratification.rs).
use minigraf.Prelude.Text.{Text, bytes_eq, bytes_eq→eq}
use minigraf.Prelude.{
  ℕ, zero, suc, ◌+◌, ◌≤◌, ◌≡◌, refl, ap, ◌∙◌, ◌⊎◌, inl, inr, Bool, true, false, Option, none, some,
  List, [], ◌∷◌, arith, Bool-cases, Option-cases, length,
}
use minigraf.Prelude.Map.{bytes_key}
use minigraf.Rules.Dependencies.{
  Dependency, DependencyGraph, holds, callees, visit, search_from, all_callees, reaches,
}
use minigraf.Rules.Dependencies.Visit.{
  Edges, unseen_bound, unseen, all_callees_lem, Visited, Visited-visit, found_by_visit, holds_first,
  holds_later,
}

-- A path of one or more edges.
pub data CallPath (edges : List (Text × List Dependency)) (to : Text) : Text → Type 0 where
  last : {p : Text} → holds to (callees edges p) ≡ true → CallPath edges to p
  step : {p q : Text} → holds q (callees edges p) ≡ true → CallPath edges to q → CallPath edges to p

-- The answer of one round of the search.
abbrev after_visit :
    (List Text → List Text → Option Bool) → Option (List Text × List Text) → Option Bool
after_visit again none = some true
after_visit again (some (seen, stack)) = again seen stack

search_nil :
    (fuel : ℕ) (edges : Edges) (to : Text) (seen : List Text)
    → search_from fuel edges to seen [] ≡ some false
unfolding search_from
search_nil zero edges to seen = refl
search_nil (suc fuel) edges to seen = refl

search_step :
    (fuel : ℕ) (edges : Edges) (to p : Text) (seen stack : List Text)
    → search_from (suc fuel) edges to seen (p ∷ stack)
      ≡ after_visit (search_from fuel edges to) (visit to (callees edges p) seen stack)
unfolding search_from
search_step fuel edges to p seen stack = by_cases (visit to (callees edges p) seen stack)
  where
    by_cases :
        (o : Option (List Text × List Text))
        → (elim o [
          | none ↦ some true
          | some (seen', stack') ↦ search_from fuel edges to seen' stack'
        ])
          ≡ after_visit (search_from fuel edges to) o
    by_cases none = refl
    by_cases (some v) = refl

-- Whether everything that `q` calls has been seen, and is not `to`.
record Closed (edges : Edges) (to : Text) (seen : List Text) (q : Text) : Type 0 where
  no_goal : holds to (callees edges q) ≡ false
  all_seen : (r : Text) → holds r (callees edges q) ≡ true → holds r seen ≡ true

-- What a search keeps: names on the stack are reachable or the start, and what is tracked is on the
-- stack or closed.
record Search (edges : Edges) (to from : Text) (seen stack : List Text) : Type 0 where
  reached : (q : Text) → holds q stack ≡ true → CallPath edges to q → CallPath edges to from
  tracked :
      (q : Text)
      → (q ≡ from) ⊎ (holds q seen ≡ true)
      → (holds q stack ≡ true) ⊎ Closed edges to seen q

Closed-grow :
    (edges : Edges) (to q : Text) (seen more : List Text)
    → ((r : Text) → holds r seen ≡ true → holds r more ≡ true)
    → Closed edges to seen q
    → Closed edges to more q
Closed-grow edges to q seen more grow c = record {
  no_goal = c.no_goal;
  all_seen = λ r h. grow r (c.all_seen r h);
}

Search-step :
    (edges : Edges) (to from p : Text) (seen stack new_seen new_stack : List Text)
    → Visited to (callees edges p) seen stack new_seen new_stack
    → Search edges to from seen (p ∷ stack)
    → Search edges to from new_seen new_stack
Search-step edges to from p seen stack new_seen new_stack v s = record {
  reached = λ q h path. elim (Bool-cases (holds q stack)) [
    | inl old ↦ s.reached q (holds_later q p stack old) path
    | inr new ↦ s.reached p (holds_first p stack) (step (v.origin q h new) path)
  ];
  tracked = λ q h.
      let settle : (q : Text)
          → (holds q (p ∷ stack) ≡ true) ⊎ Closed edges to seen q
          → (holds q new_stack ≡ true) ⊎ Closed edges to new_seen q =
        λ q o. elim o [
          | inl on ↦ elim (Bool-cases (bytes_eq q p)) [
            | inl same ↦
                inr
                  (rw (bytes_eq→eq q p same) (record { no_goal = v.absent; all_seen = v.covered }))
            | inr other ↦ inl (v.stack_kept q (ground (arith, on, other)))
          ]
          | inr closed ↦ inr (Closed-grow edges to q seen new_seen v.seen_kept closed)
        ] in
      elim h [
        | inl start ↦ settle q (s.tracked q (inl start))
        | inr known ↦ elim (Bool-cases (holds q seen)) [
          | inl old ↦ settle q (s.tracked q (inr old))
          | inr new ↦ inl (v.fresh q known new)
        ]
      ];
}

-- Nothing leads from a closed set to the goal.
Closed-ends :
    (edges : Edges) (to : Text) (seen : List Text) (q : Text)
    → ((r : Text) → holds r seen ≡ true → Closed edges to seen r)
    → Closed edges to seen q
    → CallPath edges to q
    → ⊥
Closed-ends edges to seen q all c (last h) = absurd (ground (arith, h, c.no_goal))
Closed-ends edges to seen q all c (step {q = r} h path) =
    Closed-ends edges to seen r all (all r (c.all_seen r h)) path

-- What an answer of the search says.
abbrev pub Says : Edges → Text → Text → Bool → Type 0
Says edges to from true = CallPath edges to from
Says edges to from false = CallPath edges to from → ⊥

search_from_lem :
    (fuel : ℕ) (edges : Edges) (to from : Text) (seen stack : List Text)
    → Search edges to from seen stack
    → unseen seen (all_callees edges) + length stack ≤ fuel
    → (answer : Bool) × (search_from fuel edges to seen stack ≡ some answer)
      × Says edges to from answer
search_from_lem fuel edges to from seen [] s h =
    let closed_at : (q : Text) → (q ≡ from) ⊎ (holds q seen ≡ true) → Closed edges to seen q =
      λ q o. elim (s.tracked q o) [ inl on ↦ absurd (ground (arith, on)) | inr closed ↦ closed ] in
    (
      false,
      search_nil fuel edges to seen,
      Closed-ends edges to seen from (λ r k. closed_at r (inr k)) (closed_at from (inl refl)),
    )
search_from_lem zero edges to from seen (p ∷ stack) s h = absurd (omega arith)
search_from_lem (suc fuel) edges to from seen (p ∷ stack) s h =
    elim (Option-cases (visit to (callees edges p) seen stack)) [
      | inl found ↦ (
        true,
        search_step fuel edges to p seen stack ∙ ap (after_visit (search_from fuel edges to)) found,
        s.reached p (holds_first p stack)
            (last (found_by_visit to (callees edges p) seen stack found)),
      )
      | inr ((new_seen, new_stack), more) ↦
          let v = Visited-visit to (callees edges p) seen stack new_seen new_stack more in
          let (answer, rest, says) =
            search_from_lem fuel edges to from new_seen new_stack
              (Search-step edges to from p seen stack new_seen new_stack v s)
              (omega (arith, h, v.smaller (all_callees edges) (all_callees_lem edges p))) in
          (
            answer,
            search_step fuel edges to p seen stack
                ∙ ap (after_visit (search_from fuel edges to)) more
                ∙ rest,
            says,
          )
    ]

-- `reaches` answers, with the fuel it has: `true` only if a path of one or more edges leads from the
-- one predicate to the other, and `false` only if none does.
pub reaches_lem :
    (g : DependencyGraph) (from to : Text)
    → (answer : Bool) × (reaches g from to ≡ some answer) × Says g.edges to from answer
unfolding reaches
reaches_lem g from to =
    search_from_lem (suc (length (all_callees g.edges))) g.edges to from [] (from ∷ [])
      (record {
        reached = λ q h path. elim (Bool-cases (bytes_eq q from)) [
          | inl same ↦ rw⁻¹ (bytes_eq→eq q from same) path
          | inr other ↦ absurd (ground (arith, h, other))
        ];
        tracked =
            λ q h. elim h [ inl start ↦ inl (rw start (holds_first from [])) | inr never ↦ cc ];
      })
      (omega (arith, unseen_bound [] (all_callees g.edges)))
