-- ===== src/Query/Eval/Unknown.antt =====
-- The predicates that are not registered, which `apply_expr_clauses` of
-- src/query/datalog/executor.rs refuses.
use minigraf.Prelude.{
  ◌≡◌, refl, sym, ◌⊎◌, inl, inr, true, Option, none, some, List, [], ◌∷◌, Bool-cases,
}
use minigraf.Prelude.Options.{none-ne-some}
use minigraf.Prelude.Text.{Text}
use minigraf.Prelude.Map.{lookup, bytes_key}
use minigraf.Rules.Syntax.{UnaryOp, Expr, WhereClause}
use minigraf.Query.Eval.{PredicateDesc, Predicates, callable, get_predicate}
use minigraf.Query.Eval.Clauses.{udf_of, unknown_udf, unknown_or}

-- No predicate of the user has the name.
abbrev pub IsUnregistered : Predicates → Text → Type 0
IsUnregistered registry name =
    (lookup name registry ≡ none)
    ⊎ ((desc : PredicateDesc) × (lookup name registry ≡ some desc) × (desc.is_builtin ≡ true))

-- The outermost call of the clause is one of a predicate that is not registered.
abbrev pub CallsUnknown : Predicates → WhereClause → Type 0
CallsUnknown registry (WhereClause.expr (Expr.unary_op (UnaryOp.udf name) arg) out) =
    IsUnregistered registry name
CallsUnknown registry c = ⊥

abbrev pub SomeUnknown : Predicates → List WhereClause → Type 0
SomeUnknown registry [] = ⊥
SomeUnknown registry (c ∷ clauses) = CallsUnknown registry c ⊎ SomeUnknown registry clauses

get_predicate-IsUnregistered :
    (registry : Predicates) (name : Text)
    → get_predicate name registry ≡ none
    → IsUnregistered registry name
unfolding get_predicate
get_predicate-IsUnregistered registry name h = looked_up (lookup name registry) refl h
  where
    looked_up :
        (o : Option PredicateDesc)
        → lookup name registry ≡ o
        → callable o ≡ none
        → IsUnregistered registry name
    looked_up none e k = inl e
    looked_up (some desc) e k = elim (Bool-cases desc.is_builtin) [
      | inl b ↦ inr (desc, e, b)
      | inr b ↦ absurd (none-ne-some (sym (rw b at k)))
    ]

get_predicate-registered :
    (registry : Predicates) (name : Text) (desc : PredicateDesc)
    → get_predicate name registry ≡ some desc
    → ¬ IsUnregistered registry name
unfolding get_predicate
get_predicate-registered registry name desc h (inl absent) = absurd (none-ne-some (rw absent at h))
get_predicate-registered registry name desc h (inr (found, e, b)) =
    absurd (none-ne-some (rw (e, b) at h))

unknown_or-SomeUnknown :
    (registry : Predicates) (c : WhereClause) (clauses : List WhereClause) (name : Text)
    → (rest : Option Text) → ((x : Text) → rest ≡ some x → SomeUnknown registry clauses)
    → unknown_or (udf_of c) registry rest ≡ some name
    → SomeUnknown registry (c ∷ clauses)
unknown_or-SomeUnknown registry (WhereClause.expr (Expr.unary_op (UnaryOp.udf u) arg) out) clauses
      name rest ih h =
    looked_up (get_predicate u registry) refl h
  where
    answer : Option PredicateDesc → Option Text
    answer o = elim o [ none ↦ some u | some desc ↦ rest ]

    looked_up :
        (o : Option PredicateDesc)
        → get_predicate u registry ≡ o
        → answer o ≡ some name
        → IsUnregistered registry u ⊎ SomeUnknown registry clauses
    looked_up none e k = inl (get_predicate-IsUnregistered registry u e)
    looked_up (some desc) e k = inr (ih name k)
unknown_or-SomeUnknown registry c clauses name rest ih h = inr (ih name h)

pub unknown_udf-SomeUnknown :
    (registry : Predicates) (clauses : List WhereClause) (name : Text)
    → unknown_udf clauses registry ≡ some name
    → SomeUnknown registry clauses
unfolding unknown_udf
unknown_udf-SomeUnknown registry [] name h = absurd (none-ne-some h)
unknown_udf-SomeUnknown registry (c ∷ clauses) name h =
    unknown_or-SomeUnknown registry c clauses name (unknown_udf clauses registry)
      (unknown_udf-SomeUnknown registry clauses) h

unknown_or-none :
    (registry : Predicates) (c : WhereClause) (clauses : List WhereClause) (rest : Option Text)
    → (rest ≡ none → ¬ SomeUnknown registry clauses)
    → unknown_or (udf_of c) registry rest ≡ none
    → ¬ SomeUnknown registry (c ∷ clauses)
unknown_or-none registry (WhereClause.expr (Expr.unary_op (UnaryOp.udf u) arg) out) clauses rest ih
      h =
    looked_up (get_predicate u registry) refl h
  where
    answer : Option PredicateDesc → Option Text
    answer o = elim o [ none ↦ some u | some desc ↦ rest ]

    looked_up :
        (o : Option PredicateDesc)
        → get_predicate u registry ≡ o
        → answer o ≡ none
        → ¬ (IsUnregistered registry u ⊎ SomeUnknown registry clauses)
    looked_up none e k = absurd (none-ne-some (sym k))
    looked_up (some desc) e k =
        λ s. elim s [ inl a ↦ get_predicate-registered registry u desc e a | inr b ↦ ih k b ]
unknown_or-none registry c clauses rest ih h = λ s. elim s [ inl a ↦ a | inr b ↦ ih h b ]

pub unknown_udf-none :
    (registry : Predicates) (clauses : List WhereClause)
    → unknown_udf clauses registry ≡ none
    → ¬ SomeUnknown registry clauses
unfolding unknown_udf
unknown_udf-none registry [] h = λ s. s
unknown_udf-none registry (c ∷ clauses) h =
    unknown_or-none registry c clauses (unknown_udf clauses registry)
      (unknown_udf-none registry clauses) h
