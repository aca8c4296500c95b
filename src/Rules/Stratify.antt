-- ===== src/Rules/Stratify.antt =====
-- `DependencyGraph::stratify` of src/query/datalog/stratification.rs.
pub mod Relax
pub mod Least
pub mod Rounds
pub mod Answers
use minigraf.Prelude.Text.{Text, bytes_eq}
use minigraf.Prelude.{
  ℕ, zero, suc, ◌+◌, ◌-◌, ◌*◌, ◌^◌, min, Bool, true, false, not, ◌&&◌, ◌||◌, Option, none, some,
  List, [], ◌∷◌, ◌++◌, ltb, leb, if◌then◌else◌, length, set, any,
}
use minigraf.Error.{Result, ok, err, coded, int054, ◌>>=◌}
use minigraf.Prelude.Map.{Map, bytes_key, lookup, entry, insert}
use minigraf.Graph.Net.{or_zero}
use minigraf.Rules.Dependencies.{Dependency, DependencyGraph, holds, add_name, names, reaches}

abbrev pub Strata : Type 0
Strata = Map Text ℕ

abbrev pub stratum : Text → Strata → ℕ
stratum p strata = or_zero (lookup p strata)

-- The set of all heads and dependencies.
unfoldable pub add_names : List Text → List Text → List Text
add_names [] set = set
add_names (p ∷ ps) set = add_names ps (add_name p set)

unfoldable pub all_predicates : List (Text × List Dependency) → List Text → List Text
all_predicates [] set = set
all_predicates ((head, deps) ∷ edges) set =
    all_predicates edges (add_names (names deps) (add_name head set))

abbrev pub predicates : DependencyGraph → List Text
predicates g = all_predicates g.edges []

-- Every predicate in the stratum 0.
unfoldable pub at_zero : List Text → Strata
at_zero [] = []
at_zero (p ∷ ps) = (p, 0) ∷ at_zero ps

-- The pairs of a head and a dependency that the source calls raised.
abbrev pub is_pair : Text → Text → Text × Text → Bool
is_pair head dep (h, d) = bytes_eq h head && bytes_eq d dep

abbrev pub is_raised : List (Text × Text) → Text → Text → Bool
is_raised raised head dep = any (is_pair head dep) raised

-- The search for one head; `none` if a search runs out of fuel.
unfoldable pub raised_deps : DependencyGraph → Text → List Dependency → Option (List (Text × Text))
raised_deps g head [] = some []
raised_deps g head ((dep, negative) ∷ deps) = elim (raised_deps g head deps) [
  | none ↦ none
  | some rest ↦
      if not negative && holds dep g.mixed
      then elim (reaches g dep head) [
        | none ↦ none
        | some true ↦ some rest
        | some false ↦ some ((head, dep) ∷ rest)
      ]
      else some rest
]

unfoldable pub raised_edges :
    DependencyGraph → List (Text × List Dependency) → Option (List (Text × Text))
raised_edges g [] = some []
raised_edges g ((head, deps) ∷ edges) = elim (raised_edges g edges) [
  | none ↦ none
  | some rest ↦ elim (raised_deps g head deps) [ none ↦ none | some new ↦ some (new ++ rest) ]
]

-- `strata.entry(head).or_insert(0)`, then the new stratum if it is higher.
unfoldable pub raise : Text → ℕ → Strata → Strata
raise head required strata =
    let there = entry head (λ old. old) 0 strata in
    if ltb (stratum head there) required then insert head required there else there

pub record Round : Type 0 where
  pub strata : Strata
  pub changed : Bool

-- How far a head must be above its dependency.
abbrev pub step_of : List (Text × Text) → Text → Dependency → ℕ
step_of raised head (dep, negative) = if negative || is_raised raised head dep then 1 else 0

-- The stratum that one edge requires; the sum is the saturating one of `usize`.
abbrev pub required_by : ℕ → ℕ → ℕ
required_by dep_stratum step = min (dep_stratum + step) (2 ^ 64 - 1)

-- The body of the inner loop for `n` predicates.
unfoldable pub relax : ℕ → Text → Text → ℕ → Round → Result Round
relax n head dep step round =
    let required = required_by (stratum dep round.strata) step in
    let strata = raise head required round.strata in
    if leb n (stratum head strata)
    then err (coded int054)
    else ok (record {
      strata = strata;
      changed = round.changed || ltb (stratum head round.strata) required;
    })

pub relax_deps : ℕ → List (Text × Text) → Text → List Dependency → Round → Result Round
relax_deps n raised head [] round = ok round
relax_deps n raised head (d ∷ deps) round =
    relax n head (d.0) (step_of raised head d) round >>= λ next. relax_deps n raised head deps next

pub relax_all : ℕ → List (Text × Text) → List (Text × List Dependency) → Round → Result Round
relax_all n raised [] round = ok round
relax_all n raised ((head, deps) ∷ edges) round =
    relax_deps n raised head deps round >>= λ next. relax_all n raised edges next

-- What follows a round: the failure, another round, or the result.
abbrev pub after_round : (Strata → Option (Result Strata)) → Result Round → Option (Result Strata)
after_round again (err e) = some (err e)
after_round again (ok round) = if round.changed then again round.strata else some (ok round.strata)

-- The rounds, until one changes nothing; `none` when the fuel is used up.
unfoldable pub propagate :
    ℕ → ℕ → List (Text × Text) → List (Text × List Dependency) → Strata → Option (Result Strata)
propagate zero n raised edges strata = none
propagate (suc fuel) n raised edges strata =
    after_round (λ next. propagate fuel n raised edges next)
      (relax_all n raised edges (record { strata = strata; changed = false }))

-- `DependencyGraph::stratify` once the raised edges are known: a round that changes something raises
-- one of the `n` strata, each of which stays below `n`.
unfoldable pub stratify_with : List (Text × Text) → DependencyGraph → Option (Result Strata)
stratify_with raised g =
    let ps = predicates g in
    let n = length ps in propagate (suc (n * n)) n raised g.edges (at_zero ps)

abbrev pub with_raised : DependencyGraph → Option (List (Text × Text)) → Option (Result Strata)
with_raised g none = none
with_raised g (some raised) = stratify_with raised g

-- `DependencyGraph::stratify`
unfoldable pub stratify : DependencyGraph → Option (Result Strata)
stratify g = with_raised g (raised_edges g g.edges)
