-- ===== src/Rules/Dependencies/Visit.antt =====
-- One round of the search of `DependencyGraph::reaches` (src/query/datalog/stratification.rs).
use minigraf.Prelude.Text.{Text, bytes_eq, bytes_eq_refl, bytes_eq→eq, bytes_eq_iff}
use minigraf.Prelude.{
  ℕ, suc, ◌+◌, ◌≤◌, ◌<◌, ◌≡◌, refl, sym, ap, ◌∙◌, inl, inr, Bool, true, false, ◌||◌, none, some,
  List, [], ◌∷◌, ◌++◌, arith, if◌then◌else◌, Bool-cases, length,
}
use minigraf.Prelude.Map.{lookup, bytes_key}
use minigraf.Rules.Dependencies.{
  Dependency, holds, names, no_dependencies, callees, visit, all_callees,
}

abbrev pub Edges : Type 0
Edges = List (Text × List Dependency)

-- How many of some names have not been seen.
pub unseen : List Text → List Text → ℕ
unseen seen [] = 0
unseen seen (p ∷ ps) = if holds p seen then unseen seen ps else suc (unseen seen ps)

unseen_less : (q : Text) (seen ps : List Text) → unseen (q ∷ seen) ps ≤ unseen seen ps
unfolding unseen
unseen_less q seen [] = omega arith
unseen_less q seen (p ∷ ps) = ground (arith, unseen_less q seen ps)

unseen_drop :
    (q : Text) (seen ps : List Text)
    → holds q ps ≡ true
    → holds q seen ≡ false
    → unseen (q ∷ seen) ps < unseen seen ps
unfolding unseen
unseen_drop q seen [] mem new = cc
unseen_drop q seen (p ∷ ps) mem new = elim (Bool-cases (bytes_eq q p)) [
  | inl same ↦
      let qp = bytes_eq→eq q p same in
      ground (
        arith,
        unseen_less q seen ps,
        ap (λ x. holds x seen) qp,
        bytes_eq_refl p,
        ap (λ x. bytes_eq p x) qp,
      )
  | inr differ ↦ ground (arith, unseen_drop q seen ps, unseen_less q seen ps)
]

any-append : (p : Text) (xs ys : List Text) → holds p (xs ++ ys) ≡ (holds p xs || holds p ys)
any-append p [] ys = refl
any-append p (x ∷ xs) ys = ap (λ b. bytes_eq p x || b) (any-append p xs ys) ∙ ground arith

-- The callees of a predicate are among all callees.
pub all_callees_lem :
    (edges : Edges) (p q : Text)
    → holds q (callees edges p) ≡ true
    → holds q (all_callees edges) ≡ true
unfolding all_callees names
all_callees_lem [] p q h = h
all_callees_lem ((head, deps) ∷ edges) p q h =
    let at =
      λ (b : Bool). holds q (names (no_dependencies (if b then some deps else lookup p edges))) in
    rw (any-append q (names deps) (all_callees edges)) (elim (Bool-cases (bytes_eq head p)) [
      | inl here ↦ let found : holds q (names deps) ≡ true = sym (ap at here) ∙ h in rw found refl
      | inr away ↦
          let found = all_callees_lem edges p q (sym (ap at away) ∙ h) in rw found (ground arith)
    ])

-- What a visit that does not find `to` has done.
pub record Visited (to : Text) (deps seen stack new_seen new_stack : List Text) : Type 0 where
  pub absent : holds to deps ≡ false
  pub covered : (q : Text) → holds q deps ≡ true → holds q new_seen ≡ true
  pub seen_kept : (q : Text) → holds q seen ≡ true → holds q new_seen ≡ true
  pub stack_kept : (q : Text) → holds q stack ≡ true → holds q new_stack ≡ true
  pub fresh : (q : Text) → holds q new_seen ≡ true → holds q seen ≡ false → holds q new_stack ≡ true
  pub origin : (q : Text) → holds q new_stack ≡ true → holds q stack ≡ false → holds q deps ≡ true
  pub smaller :
      (all : List Text)
      → ((q : Text) → holds q deps ≡ true → holds q all ≡ true)
      → unseen new_seen all + length new_stack ≤ unseen seen all + length stack

bytes_eq_swap : (a b : Text) → bytes_eq a b ≡ false → bytes_eq b a ≡ false
bytes_eq_swap a b e = ground (arith, bytes_eq_iff a b, bytes_eq_iff b a, bytes_eq_refl a)

visit_nil : (to : Text) (seen stack : List Text) → visit to [] seen stack ≡ some (seen, stack)
unfolding visit
visit_nil to seen stack = refl

visit_found :
    (to dep : Text) (deps seen stack : List Text)
    → bytes_eq dep to ≡ true
    → visit to (dep ∷ deps) seen stack ≡ none
unfolding visit
visit_found to dep deps seen stack found = rw found refl

visit_seen :
    (to dep : Text) (deps seen stack : List Text)
    → bytes_eq dep to ≡ false
    → holds dep seen ≡ true
    → visit to (dep ∷ deps) seen stack ≡ visit to deps seen stack
unfolding visit
visit_seen to dep deps seen stack differ old = rw (differ, old) refl

visit_new :
    (to dep : Text) (deps seen stack : List Text)
    → bytes_eq dep to ≡ false
    → holds dep seen ≡ false
    → visit to (dep ∷ deps) seen stack ≡ visit to deps (dep ∷ seen) (dep ∷ stack)
unfolding visit
visit_new to dep deps seen stack differ new = rw (differ, new) refl

pub holds_first : (q : Text) (qs : List Text) → holds q (q ∷ qs) ≡ true
holds_first q qs = rw (bytes_eq_refl q) refl

pub holds_later : (q p : Text) (qs : List Text) → holds q qs ≡ true → holds q (p ∷ qs) ≡ true
holds_later q p qs h = rw h (ground arith)

pub found_by_visit :
    (to : Text) (deps seen stack : List Text)
    → visit to deps seen stack ≡ none
    → holds to deps ≡ true
found_by_visit to [] seen stack e = let never = sym (visit_nil to seen stack) ∙ e in cc
found_by_visit to (dep ∷ deps) seen stack e = elim (Bool-cases (bytes_eq dep to)) [
  | inl same ↦ let there = bytes_eq→eq dep to same in rw there (holds_first to deps)
  | inr differ ↦ elim (Bool-cases (holds dep seen)) [
    | inl old ↦
        holds_later to dep deps (
          found_by_visit to deps seen stack
            (sym (visit_seen to dep deps seen stack differ old) ∙ e))
    | inr new ↦ holds_later to dep deps (
        found_by_visit to deps (dep ∷ seen) (dep ∷ stack)
          (sym (visit_new to dep deps seen stack differ new) ∙ e))
  ]
]

Visited-nil : (to : Text) (seen stack : List Text) → Visited to [] seen stack seen stack
Visited-nil to seen stack = record {
  absent = refl;
  covered = λ q h. cc;
  seen_kept = λ q h. h;
  stack_kept = λ q h. h;
  fresh = λ q h k. cc;
  origin = λ q h k. cc;
  smaller = λ all h. omega arith;
}

Visited-seen :
    (to dep : Text) (deps seen stack new_seen new_stack : List Text)
    → bytes_eq dep to ≡ false
    → holds dep seen ≡ true
    → Visited to deps seen stack new_seen new_stack
    → Visited to (dep ∷ deps) seen stack new_seen new_stack
Visited-seen to dep deps seen stack new_seen new_stack differ old v = record {
  absent = rw (bytes_eq_swap dep to differ, v.absent) refl;
  covered = λ q h. elim (Bool-cases (bytes_eq q dep)) [
    | inl same ↦ rw (bytes_eq→eq q dep same) (v.seen_kept dep old)
    | inr other ↦ v.covered q (ground (arith, other))
  ];
  seen_kept = v.seen_kept;
  stack_kept = v.stack_kept;
  fresh = v.fresh;
  origin = λ q h k. holds_later q dep deps (v.origin q h k);
  smaller = λ all h. v.smaller all (λ q k. h q (holds_later q dep deps k));
}

Visited-new :
    (to dep : Text) (deps seen stack new_seen new_stack : List Text)
    → bytes_eq dep to ≡ false
    → holds dep seen ≡ false
    → Visited to deps (dep ∷ seen) (dep ∷ stack) new_seen new_stack
    → Visited to (dep ∷ deps) seen stack new_seen new_stack
Visited-new to dep deps seen stack new_seen new_stack differ new v = record {
  absent = rw (bytes_eq_swap dep to differ, v.absent) refl;
  covered = λ q h. elim (Bool-cases (bytes_eq q dep)) [
    | inl same ↦ rw (bytes_eq→eq q dep same) (v.seen_kept dep (holds_first dep seen))
    | inr other ↦ v.covered q (ground (arith, other))
  ];
  seen_kept = λ q h. v.seen_kept q (holds_later q dep seen h);
  stack_kept = λ q h. v.stack_kept q (holds_later q dep stack h);
  fresh = λ q h k. elim (Bool-cases (bytes_eq q dep)) [
    | inl same ↦ rw (bytes_eq→eq q dep same) (v.stack_kept dep (holds_first dep stack))
    | inr other ↦ v.fresh q h (rw (other, k) refl)
  ];
  origin = λ q h k. elim (Bool-cases (bytes_eq q dep)) [
    | inl same ↦ rw same refl
    | inr other ↦ holds_later q dep deps (v.origin q h (rw (other, k) refl))
  ];
  smaller = λ all h.
      let rest = v.smaller all (λ q k. h q (holds_later q dep deps k)) in
      omega (arith, rest, unseen_drop dep seen all (h dep (holds_first dep deps)) new);
}

pub Visited-visit :
    (to : Text) (deps seen stack new_seen new_stack : List Text)
    → visit to deps seen stack ≡ some (new_seen, new_stack)
    → Visited to deps seen stack new_seen new_stack
Visited-visit to [] seen stack new_seen new_stack e =
    let stopped = sym (visit_nil to seen stack) ∙ e in
    let seen_same : seen ≡ new_seen = cc in
    let stack_same : stack ≡ new_stack = cc in
    rw (sym seen_same, sym stack_same) (Visited-nil to seen stack)
Visited-visit to (dep ∷ deps) seen stack new_seen new_stack e =
    elim (Bool-cases (bytes_eq dep to)) [
      | inl same ↦ let never = sym (visit_found to dep deps seen stack same) ∙ e in cc
      | inr differ ↦ elim (Bool-cases (holds dep seen)) [
        | inl old ↦ Visited-seen to dep deps seen stack new_seen new_stack differ old (
            Visited-visit to deps seen stack new_seen new_stack
              (sym (visit_seen to dep deps seen stack differ old) ∙ e))
        | inr new ↦ Visited-new to dep deps seen stack new_seen new_stack differ new (
            Visited-visit to deps (dep ∷ seen) (dep ∷ stack) new_seen new_stack
              (sym (visit_new to dep deps seen stack differ new) ∙ e))
      ]
    ]

pub unseen_bound : (seen ps : List Text) → unseen seen ps ≤ length ps
unfolding unseen
unseen_bound seen [] = omega arith
unseen_bound seen (p ∷ ps) = ground (arith, unseen_bound seen ps)
