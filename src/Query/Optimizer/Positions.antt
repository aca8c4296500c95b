-- ===== src/Query/Optimizer/Positions.antt =====
-- Where a plan takes a clause: after what it needs (src/query/datalog/optimizer.rs).
use minigraf.Prelude.{
  ℕ, zero, suc, ◌≡◌, refl, sym, ap, inl, inr, Bool, true, Option, none, some, List, [], ◌∷◌, ◌++◌,
  append-nil, append_assoc, Bool-cases, Option-cases, length, take,
}
use mathlib.Core.Option
use mathlib.Core.Path.{subst}
use minigraf.Prelude.Text.{Text}
use minigraf.Prelude.Options.{none-ne-some}
use minigraf.Rules.Syntax.{WhereClause}
use minigraf.Query.Optimizer.{listed, pattern_bound_vars, expr_vars}
use minigraf.Query.Optimizer.Plan.{
  insert_at, Planned, pattern_vars, next_bound, binds_here, bound_pos, expr_pos, required,
}
use minigraf.Query.Optimizer.Sets.{
  Within, Within-refl, Within-trans, Within-append, Within-weaken, Within-both, IsIn-append_left,
  IsIn-append_right, is_subset-Within,
}

-- What a clause binds for those after it.
abbrev pub binds : WhereClause → List Text
binds (WhereClause.pattern p) = pattern_bound_vars p
binds (WhereClause.expr e binding) = listed binding
binds other = []

-- What has to be bound before a clause.
abbrev pub needs : WhereClause → List Text
needs (WhereClause.expr e binding) = expr_vars e
needs other = required other

abbrev pub all_binds : List Planned → List Text
all_binds [] = []
all_binds (entry ∷ result) = binds entry.0 ++ all_binds result

-- Each clause stands after what it needs.
abbrev pub IsSafe : List Text → List Planned → Type 0
IsSafe seen [] = Unit
IsSafe seen (entry ∷ result) = Within (needs entry.0) seen × IsSafe (seen ++ binds entry.0) result

IsSafe-Within :
    (seen more : List Text) (result : List Planned)
    → Within seen more
    → IsSafe seen result
    → IsSafe more result
IsSafe-Within seen more [] f safe = tt
IsSafe-Within seen more (entry ∷ result) f (here, there) = (
  Within-trans (needs entry.0) seen more here f,
  IsSafe-Within (seen ++ binds entry.0) (more ++ binds entry.0) result
      (Within-both seen more (binds entry.0) f) there,
)

pub insert_at-IsSafe :
    (n : ℕ) (c : Planned) (result : List Planned) (seen : List Text)
    → IsSafe seen result
    → Within (needs c.0) (seen ++ all_binds (take n result))
    → IsSafe seen (insert_at n c result)
unfolding insert_at
insert_at-IsSafe zero c result seen safe f = (
  rw (append-nil seen) at f,
  IsSafe-Within seen (seen ++ binds c.0) result
      (Within-weaken seen seen (binds c.0) (Within-refl seen)) safe,
)
insert_at-IsSafe (suc n) c [] seen safe f = (rw (append-nil seen) at f, tt)
insert_at-IsSafe (suc n) c (entry ∷ result) seen (here, there) f = (
  here,
  insert_at-IsSafe n c result (seen ++ binds entry.0) there
      (rw (append_assoc seen (binds entry.0) (all_binds (take n result))) f),
)

-- An insertion keeps what was bound, and adds what the clause binds.
pub Within-insert_at_old :
    (n : ℕ) (c : Planned) (result : List Planned)
    → Within (all_binds result) (all_binds (insert_at n c result))
unfolding insert_at
Within-insert_at_old zero c result v i = IsIn-append_right v (binds c.0) (all_binds result) i
Within-insert_at_old (suc n) c [] v i = absurd i
Within-insert_at_old (suc n) c (entry ∷ result) v i =
    Within-append (binds entry.0) (all_binds result) _
      (Within-weaken (binds entry.0) (binds entry.0) _ (Within-refl (binds entry.0)))
      (λ w j. IsIn-append_right w (binds entry.0) _ (Within-insert_at_old n c result w j)) v i

pub Within-insert_at_new :
    (n : ℕ) (c : Planned) (result : List Planned)
    → Within (binds c.0) (all_binds (insert_at n c result))
unfolding insert_at
Within-insert_at_new zero c result v i = IsIn-append_left v (binds c.0) (all_binds result) i
Within-insert_at_new (suc n) c [] v i = IsIn-append_left v (binds c.0) [] i
Within-insert_at_new (suc n) c (entry ∷ result) v i =
    IsIn-append_right v (binds entry.0) _ (Within-insert_at_new n c result v i)

next_bound-Within :
    (bound : List Text) (c : WhereClause)
    → Within (next_bound bound (pattern_vars c)) (bound ++ binds c)
unfolding pattern_vars
next_bound-Within bound (WhereClause.pattern p) v i = i
next_bound-Within bound (WhereClause.rule_invocation predicate args) v i =
    IsIn-append_left v bound _ i
next_bound-Within bound (WhereClause.not_ body) v i = IsIn-append_left v bound _ i
next_bound-Within bound (WhereClause.not_join join_vars body) v i = IsIn-append_left v bound _ i
next_bound-Within bound (WhereClause.expr e binding) v i = IsIn-append_left v bound _ i
next_bound-Within bound (WhereClause.or_ bs) v i = IsIn-append_left v bound _ i
next_bound-Within bound (WhereClause.or_join join_vars bs) v i = IsIn-append_left v bound _ i

binds_here-Within :
    (vars bound : List Text) (o : Option (List Text))
    → binds_here vars (next_bound bound o) o ≡ true
    → Within vars (next_bound bound o)
binds_here-Within vars bound none h = cc
binds_here-Within vars bound (some new) h = is_subset-Within vars (bound ++ new) h

-- The two ways on from an entry that is not the position.
Within-skip :
    (vars bound more : List Text) (entry : Planned) (result : List Planned) (pos : ℕ)
    → (later : Option ℕ) → Option.map suc later ≡ some pos
    → Within more (bound ++ binds entry.0)
    → ((n : ℕ) → later ≡ some n → Within vars (more ++ all_binds (take n result)))
    → Within vars (bound ++ all_binds (take pos (entry ∷ result)))
Within-skip vars bound more entry result pos none h f ih = absurd (none-ne-some h)
Within-skip vars bound more entry result pos (some n) h f ih =
    subst (λ m. Within vars (bound ++ all_binds (take m (entry ∷ result)))) next
      (rw (sym (append_assoc bound (binds entry.0) (all_binds (take n result)))) (
        Within-trans vars _ _ (ih n refl)
          (Within-both more (bound ++ binds entry.0) (all_binds (take n result)) f)))
  where
    next : suc n ≡ pos
    next = cc

pub bound_pos-Within :
    (vars bound : List Text) (result : List Planned) (pos : ℕ)
    → bound_pos vars bound result ≡ some pos
    → Within vars (bound ++ all_binds (take pos result))
unfolding bound_pos
bound_pos-Within vars bound [] pos h = absurd (none-ne-some h)
bound_pos-Within vars bound (entry ∷ result) pos h = elim (Bool-cases here) [
  | inl found ↦
      subst (λ m. Within vars (bound ++ all_binds (take m (entry ∷ result))))
        (first pos (rw found at h))
        (rw (append-nil (binds entry.0)) (
          Within-trans vars more _ (binds_here-Within vars bound (pattern_vars entry.0) found)
            (next_bound-Within bound entry.0)))
  | inr other ↦
      Within-skip vars bound more entry result pos (bound_pos vars more result) (rw other at h)
        (next_bound-Within bound entry.0) (λ n e. bound_pos-Within vars more result n e)
]
  where
    more : List Text
    more = next_bound bound (pattern_vars entry.0)

    here : Bool
    here = binds_here vars more (pattern_vars entry.0)

    first : (pos : ℕ) → some 1 ≡ some pos → 1 ≡ pos
    first pos e = cc

take-all : (result : List Planned) → take (length result) result ≡ result
take-all [] = refl
take-all (entry ∷ result) = ap (λ r. entry ∷ r) (take-all result)

pub expr_pos-Within :
    (vars : List Text) (result : List Planned)
    → Within vars (all_binds result)
    → Within vars (all_binds (take (expr_pos vars result) result))
unfolding expr_pos
expr_pos-Within [] result f = λ v i. absurd i
expr_pos-Within (x ∷ vars) result f = elim (Option-cases (bound_pos (x ∷ vars) [] result)) [
  | inl none_here ↦ rw (none_here, take-all result) f
  | inr (pos, found) ↦ rw found (bound_pos-Within (x ∷ vars) [] result pos found)
]
