-- ===== src/Rules/Registry.antt =====
-- `RuleRegistry` of src/query/datalog/rules.rs.
use minigraf.Prelude.Text.{Text, bytes_eq, bytes_eq_refl}
use minigraf.Prelude.{
  ℕ, ◌+◌, ◌^◌, ◌<◌, ◌≡◌, refl, ap, ◌∙◌, inl, inr, Bool, true, false, Option, none, some, List, [],
  ◌∷◌, ◌++◌, arith, Bool-cases, length,
}
use minigraf.Error.{Result, ok, err, Failure, coded, int055}
use minigraf.Prelude.Map.{
  Map, bytes_key, lookup, entry, insert, remove, contains_key, modify_or, lookup-entry_at,
}
use minigraf.Rules.Syntax.{Rule}
use minigraf.Rules.Dependencies.{from_rules}
use minigraf.Rules.Stratify.{Strata, stratify, predicates}
use minigraf.Rules.Stratify.Answers.{stratify_lem}

-- `RuleRegistry`: the rules of each predicate.
abbrev pub RuleRegistry : Type 0
RuleRegistry = Map Text (List Rule)

-- `RuleRegistry::register_rule_unchecked`: `entry(predicate).or_default().push(rule)`.
unfoldable pub register_rule_unchecked : Text → Rule → RuleRegistry → RuleRegistry
register_rule_unchecked predicate rule registry =
    entry predicate (λ rules. rules ++ rule ∷ []) (rule ∷ []) registry

-- `rules.pop()`
unfoldable pub pop : List Rule → List Rule
pop [] = []
pop (r ∷ []) = []
pop (r ∷ q ∷ rules) = r ∷ pop (q ∷ rules)

-- The rules that are left after a roll-back; a predicate without rules is removed.
abbrev pub put_back : Text → List Rule → RuleRegistry → RuleRegistry
put_back predicate [] registry = remove predicate registry
put_back predicate (r ∷ rules) registry = insert predicate (r ∷ rules) registry

-- The roll-back of `register_rule` after the failure `e`.
abbrev pub roll_back :
    Text → Failure → Option (List Rule) → RuleRegistry → Result (Unit {0}) × RuleRegistry
roll_back predicate e none registry = (err (coded int055), registry)
roll_back predicate e (some rules) registry = (err e, put_back predicate (pop rules) registry)

abbrev pub after_check :
    Text → RuleRegistry → Option (Result Strata) → Option (Result (Unit {0}) × RuleRegistry)
after_check predicate registry none = none
after_check predicate registry (some (ok strata)) = some (ok tt, registry)
after_check predicate registry (some (err e)) =
    some (roll_back predicate e (lookup predicate registry) registry)

-- `RuleRegistry::register_rule`
unfoldable pub register_rule :
    Text → Rule → RuleRegistry → Option (Result (Unit {0}) × RuleRegistry)
register_rule predicate rule registry =
    let extended = register_rule_unchecked predicate rule registry in
    after_check predicate extended (stratify (from_rules extended))

-- `RuleRegistry::get_rules`
abbrev pub rules_or_none : Option (List Rule) → List Rule
rules_or_none none = []
rules_or_none (some rules) = rules

unfoldable pub get_rules : Text → RuleRegistry → List Rule
get_rules predicate registry = rules_or_none (lookup predicate registry)

-- `RuleRegistry::has_rule`
unfoldable pub has_rule : Text → RuleRegistry → Bool
has_rule predicate registry = contains_key predicate registry

-- `RuleRegistry::rule_count`
pub rule_count : RuleRegistry → ℕ
rule_count [] = 0
rule_count ((predicate, rules) ∷ registry) = length rules + rule_count registry

-- `RuleRegistry::predicate_count`
unfoldable pub predicate_count : RuleRegistry → ℕ
predicate_count registry = length registry

-- `RuleRegistry::predicate_names`
pub predicate_names : RuleRegistry → List Text
predicate_names [] = []
predicate_names ((predicate, rules) ∷ registry) = predicate ∷ predicate_names registry

-- No predicate stands without rules.
abbrev pub HasRules : RuleRegistry → Type 0
HasRules [] = Unit {0}
HasRules ((predicate, rules) ∷ registry) = (0 < length rules) × HasRules registry

pop-append : (rules : List Rule) (rule : Rule) → pop (rules ++ rule ∷ []) ≡ rules
unfolding pop
pop-append [] rule = refl
pop-append (r ∷ []) rule = refl
pop-append (r ∷ q ∷ rules) rule = ap (◌∷◌ r) (pop-append (q ∷ rules) rule)

put_back_away :
    (predicate p : Text) (old rules : List Rule) (registry : RuleRegistry)
    → bytes_eq p predicate ≡ false
    → put_back predicate old ((p, rules) ∷ registry) ≡ (p, rules) ∷ put_back predicate old registry
put_back_away predicate p [] rules registry away = rw away refl
put_back_away predicate p (r ∷ old) rules registry away = rw away refl

put_back_here :
    (predicate p : Text) (rules more : List Rule) (registry : RuleRegistry)
    → 0 < length rules
    → bytes_eq p predicate ≡ true
    → put_back predicate rules ((p, more) ∷ registry) ≡ (p, rules) ∷ registry
put_back_here predicate p [] more registry h here = absurd (omega (arith, h))
put_back_here predicate p (r ∷ rules) more registry h here = rw here refl

-- Putting the old rules back undoes the push.
put_back-entry :
    (predicate : Text) (rule : Rule) (registry : RuleRegistry)
    → HasRules registry
    → put_back predicate
        (rules_or_none (lookup predicate registry))
        (entry predicate (λ rules. rules ++ rule ∷ []) (rule ∷ []) registry)
      ≡ registry
put_back-entry predicate rule [] h = rw (bytes_eq_refl predicate) refl
put_back-entry predicate rule ((p, rules) ∷ registry) (some_rules, h) =
    elim (Bool-cases (bytes_eq p predicate)) [
      | inl here ↦
          rw here (put_back_here predicate p rules (rules ++ rule ∷ []) registry some_rules here)
      | inr away ↦ rw away (
          put_back_away predicate p (rules_or_none (lookup predicate registry)) rules _ away
          ∙ ap (λ rest. (p, rules) ∷ rest) (put_back-entry predicate rule registry h))
    ]

pushed :
    (o : Option (List Rule)) (rule : Rule)
    → modify_or (λ rules. rules ++ rule ∷ []) (rule ∷ []) o ≡ rules_or_none o ++ rule ∷ []
pushed none rule = refl
pushed (some rules) rule = refl

lookup-register :
    (predicate : Text) (rule : Rule) (registry : RuleRegistry)
    → lookup predicate (register_rule_unchecked predicate rule registry)
      ≡ some (get_rules predicate registry ++ rule ∷ [])
unfolding register_rule_unchecked get_rules
lookup-register predicate rule registry =
    lookup-entry_at predicate predicate (λ rules. rules ++ rule ∷ []) (rule ∷ []) registry
    ∙ rw (bytes_eq_refl predicate) (ap some (pushed (lookup predicate registry) rule))

put_back-register :
    (predicate : Text) (rule : Rule) (registry : RuleRegistry)
    → HasRules registry
    → put_back predicate
        (get_rules predicate registry)
        (register_rule_unchecked predicate rule registry)
      ≡ registry
unfolding register_rule_unchecked get_rules
put_back-register predicate rule registry h = put_back-entry predicate rule registry h

get_rules-register :
    (predicate : Text) (rule : Rule) (registry : RuleRegistry)
    → get_rules predicate (register_rule_unchecked predicate rule registry)
      ≡ get_rules predicate registry ++ rule ∷ []
unfolding get_rules
get_rules-register predicate rule registry =
    ap rules_or_none (lookup-register predicate rule registry)

-- What `register_rule` may answer: the rule is kept and the rules have a stratification, or the
-- error of `stratify` is passed on.
abbrev pub Registers : Text → Rule → RuleRegistry → Result (Unit {0}) × RuleRegistry → Type 0
Registers predicate rule registry (ok done, after) =
    (after ≡ register_rule_unchecked predicate rule registry)
    × ((strata : Strata) × (stratify (from_rules after) ≡ some (ok strata)))
    × (get_rules predicate after ≡ get_rules predicate registry ++ rule ∷ [])
Registers predicate rule registry (err e, after) =
    (after ≡ registry)
    × (stratify (from_rules (register_rule_unchecked predicate rule registry)) ≡ some (err e))

Registers-after_check :
    (predicate : Text) (rule : Rule) (registry : RuleRegistry) (outcome : Result Strata)
    → HasRules registry
    → stratify (from_rules (register_rule_unchecked predicate rule registry)) ≡ some outcome
    → (answer : Result (Unit {0}) × RuleRegistry) × (register_rule predicate rule registry
        ≡ some answer)
      × Registers predicate rule registry answer
unfolding register_rule
Registers-after_check predicate rule registry (ok strata) h e =
    let extended = register_rule_unchecked predicate rule registry in
    (
      (ok tt, extended),
      ap (after_check predicate extended) e,
      (refl, (strata, e), get_rules-register predicate rule registry),
    )
Registers-after_check predicate rule registry (err failure) h e =
    let extended = register_rule_unchecked predicate rule registry in
    (
      (err failure, registry),
      ap (after_check predicate extended) e
          ∙ ap some (
              ap (λ o. roll_back predicate failure o extended)
                (lookup-register predicate rule registry)
              ∙ ap (λ rules. (err failure, put_back predicate rules extended))
                  (pop-append (get_rules predicate registry) rule)
              ∙ ap (λ r. (err failure, r)) (put_back-register predicate rule registry h)),
      (refl, e),
    )

-- `register_rule` always answers. It keeps the rule, after the older ones of its predicate, if the
-- rules have a stratification with it; otherwise it passes the error of `stratify` on, and the
-- registry is what it was, whether the predicate was new or not.
pub register_rule_lem :
    (predicate : Text) (rule : Rule) (registry : RuleRegistry)
    → HasRules registry
    → length (predicates (from_rules (register_rule_unchecked predicate rule registry))) < 2 ^ 64
    → (answer : Result (Unit {0}) × RuleRegistry) × (register_rule predicate rule registry
        ≡ some answer)
      × Registers predicate rule registry answer
register_rule_lem predicate rule registry h small =
    let (_, outcome, _, answered, _) =
      stratify_lem (from_rules (register_rule_unchecked predicate rule registry)) small in
    Registers-after_check predicate rule registry outcome h answered
