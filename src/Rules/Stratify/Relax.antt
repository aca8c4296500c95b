-- ===== src/Rules/Stratify/Relax.antt =====
-- One relaxation and one round of `stratify` (src/query/datalog/stratification.rs), edge by edge.
use minigraf.Prelude.Text.{Text, bytes_eq, bytes_eq_refl, bytes_eq→eq}
use minigraf.Error.{coded, Result, ok, err, ◌>>=◌, int054}
use minigraf.Prelude.{
  ℕ, ◌≤◌, ◌<◌, max, ◌≡◌, refl, sym, ap, ◌∙◌, inl, inr, Bool, true, false, ◌||◌, Option, none, some,
  List, [], ◌∷◌, ◌++◌, arith, ltb, leb, if◌then◌else◌, Bool-cases,
}
use minigraf.Prelude.Map.{bytes_key, lookup, entry, lookup-entry_at, lookup-insert, modify_or}
use minigraf.Graph.Net.{or_zero}
use minigraf.Rules.Dependencies.{Dependency}
use minigraf.Rules.Stratify.{
  Strata, stratum, raise, Round, step_of, required_by, relax, relax_deps, relax_all, at_zero,
}

-- An edge with the step that it demands.
pub record Constraint : Type 0 where
  pub head : Text
  pub dep : Text
  pub step : ℕ

unfoldable pub constraints_of : List (Text × Text) → Text → List Dependency → List Constraint
constraints_of raised head [] = []
constraints_of raised head (d ∷ deps) =
    record { head = head; dep = d.0; step = step_of raised head d }
    ∷ constraints_of raised head deps

-- The edges of the graph in the order in which a round visits them.
unfoldable pub constraints : List (Text × Text) → List (Text × List Dependency) → List Constraint
constraints raised [] = []
constraints raised ((head, deps) ∷ edges) =
    constraints_of raised head deps ++ constraints raised edges

unfoldable pub relax_each : ℕ → List Constraint → Round → Result Round
relax_each n [] round = ok round
relax_each n (c ∷ cs) round = relax n c.head c.dep c.step round >>= λ next. relax_each n cs next

bind_assoc :
    {A B C : Type 0} (r : Result A) (f : A → Result B) (g : B → Result C)
    → (r >>= λ a. f a >>= g) ≡ ((r >>= f) >>= g)
bind_assoc (err e) f g = refl
bind_assoc (ok a) f g = refl

ok-of_guard :
    {A : Type 0} (test : Bool) {a b : A}
    → (if test then err (coded int054) else ok a) ≡ ok b
    → (test ≡ false) × (a ≡ b)
ok-of_guard true h = cc
ok-of_guard false h = (refl, cc)

relax_each-append :
    (n : ℕ) (cs ds : List Constraint) (round : Round)
    → relax_each n (cs ++ ds) round ≡ (relax_each n cs round >>= relax_each n ds)
unfolding relax_each
relax_each-append n [] ds round = refl
relax_each-append n (c ∷ cs) ds round =
    ap (◌>>=◌ (relax n c.head c.dep c.step round)) (λ i next. relax_each-append n cs ds next i)
    ∙ bind_assoc (relax n c.head c.dep c.step round) (relax_each n cs) (relax_each n ds)

relax_deps_lem :
    (n : ℕ) (raised : List (Text × Text)) (head : Text) (deps : List Dependency) (round : Round)
    → relax_deps n raised head deps round ≡ relax_each n (constraints_of raised head deps) round
unfolding relax_deps relax_each constraints_of
relax_deps_lem n raised head [] round = refl
relax_deps_lem n raised head (d ∷ deps) round =
    ap (◌>>=◌ (relax n head (d.0) (step_of raised head d) round))
      (λ i next. relax_deps_lem n raised head deps next i)

-- A round visits the edges one by one.
pub relax_all_lem :
    (n : ℕ) (raised : List (Text × Text)) (edges : List (Text × List Dependency)) (round : Round)
    → relax_all n raised edges round ≡ relax_each n (constraints raised edges) round
unfolding relax_all relax_each constraints
relax_all_lem n raised [] round = refl
relax_all_lem n raised ((head, deps) ∷ edges) round =
    ap (λ r. r >>= λ next. relax_all n raised edges next) (relax_deps_lem n raised head deps round)
    ∙ ap (◌>>=◌ (relax_each n (constraints_of raised head deps) round))
        (λ i next. relax_all_lem n raised edges next i)
    ∙ sym (relax_each-append n (constraints_of raised head deps) (constraints raised edges) round)

or_zero-there : (o : Option ℕ) → or_zero (some (modify_or (λ old. old) 0 o)) ≡ or_zero o
or_zero-there none = refl
or_zero-there (some n) = refl

stratum-there :
    (head p : Text) (strata : Strata)
    → stratum p (entry head (λ old. old) 0 strata) ≡ stratum p strata
stratum-there head p strata =
    ap or_zero (lookup-entry_at head p (λ old. old) 0 strata)
    ∙ elim (Bool-cases (bytes_eq head p)) [
      | inl same ↦ rw same (or_zero-there (lookup p strata))
      | inr differ ↦ rw differ refl
    ]

-- Raising a head leaves the other strata as they are.
pub stratum-raise :
    (head p : Text) (required : ℕ) (strata : Strata)
    → stratum p (raise head required strata)
      ≡ (if bytes_eq head p then max (stratum head strata) required else stratum p strata)
unfolding raise
stratum-raise head p required strata =
    let there = stratum-there head head strata in
    elim (Bool-cases (ltb (stratum head (entry head (λ old. old) 0 strata)) required)) [
      | inl higher ↦ rw (higher) (
          ap or_zero (lookup-insert head p required (entry head (λ old. old) 0 strata))
          ∙ elim (Bool-cases (bytes_eq head p)) [
            | inl same ↦ rw same (ground (arith, there))
            | inr differ ↦ rw differ (stratum-there head p strata)
          ])
      | inr lower ↦ rw (lower) (
          stratum-there head p strata ∙ elim (Bool-cases (bytes_eq head p)) [
            | inl same ↦ rw (same, sym (bytes_eq→eq head p same)) (ground (arith, there))
            | inr differ ↦ rw differ refl
          ])
    ]

rising :
    (head p : Text) (required : ℕ) (strata : Strata)
    → stratum p strata ≤ stratum p (raise head required strata)
rising head p required strata =
    rw (stratum-raise head p required strata) (elim (Bool-cases (bytes_eq head p)) [
      | inl same ↦ rw (same, sym (bytes_eq→eq head p same)) (omega arith)
      | inr differ ↦ rw differ (omega arith)
    ])

-- What one relaxation that succeeds has done.
pub record Relaxed (n : ℕ) (c : Constraint) (before after : Round) : Type 0 where
  pub above : (p : Text) → stratum p before.strata ≤ stratum p after.strata
  pub head_lem :
      stratum c.head after.strata
      ≡ max (stratum c.head before.strata) (required_by (stratum c.dep before.strata) c.step)
  pub others :
      (p : Text) → bytes_eq c.head p ≡ false → stratum p after.strata ≡ stratum p before.strata
  pub bound : stratum c.head after.strata < n
  pub changed_lem : after.changed ≡ (
      before.changed
      || ltb (stratum c.head before.strata) (required_by (stratum c.dep before.strata) c.step))

pub Relaxed-relax :
    (n : ℕ) (c : Constraint) (before after : Round)
    → relax n c.head c.dep c.step before ≡ ok after
    → Relaxed n c before after
unfolding relax
Relaxed-relax n c before after e =
    let required = required_by (stratum c.dep before.strata) c.step in
    let strata = raise c.head required before.strata in
    let (low, same) = ok-of_guard (leb n (stratum c.head strata)) e in
    let self : stratum c.head strata ≡ max (stratum c.head before.strata) required =
      stratum-raise c.head c.head required before.strata ∙ rw (bytes_eq_refl c.head) refl in
    let relaxed : Relaxed n c before (record {
      strata = strata;
      changed = before.changed || ltb (stratum c.head before.strata) required;
    }) =
      record {
        above = λ p. rising c.head p required before.strata;
        head_lem = self;
        others = λ p differ. stratum-raise c.head p required before.strata ∙ rw differ refl;
        bound = ground (arith, low);
        changed_lem = refl;
      } in
    rw⁻¹ same relaxed

-- A relaxation that changes nothing has found its edge met.
pub unchanged_relaxation :
    (n : ℕ) (c : Constraint) (before after : Round)
    → Relaxed n c before after
    → after.changed ≡ false
    → (before.changed ≡ false)
      × (required_by (stratum c.dep before.strata) c.step ≤ stratum c.head before.strata)
      × ((p : Text) → stratum p after.strata ≡ stratum p before.strata)
unchanged_relaxation n c before after r still =
    let low : required_by (stratum c.dep before.strata) c.step ≤ stratum c.head before.strata =
      ground (arith, r.changed_lem) in
    (
      ground (arith, r.changed_lem),
      low,
      λ p. elim (Bool-cases (bytes_eq c.head p)) [
        | inl same ↦ rw⁻¹ (bytes_eq→eq c.head p same) (omega (arith, r.head_lem, low))
        | inr differ ↦ r.others p differ
      ],
    )

pub stratum-at_zero : (p : Text) (ps : List Text) → stratum p (at_zero ps) ≡ 0
unfolding at_zero
stratum-at_zero p [] = refl
stratum-at_zero p (q ∷ ps) = elim (Bool-cases (bytes_eq q p)) [
  | inl same ↦ rw same refl
  | inr differ ↦ rw differ (stratum-at_zero p ps)
]
