-- ===== src/Graph/Store/InSync.antt =====
-- The pending AEVT index lists the log, and a lookup by attribute finds it (src/graph/storage.rs).
use minigraf.Prelude.Order.{and_then, compare_bytes, eq_of_compare_bytes}
use minigraf.Prelude.Int.{compare_ℤ}
use minigraf.Error.{coded, ok, err, int045}
use minigraf.Prelude.{
  ℕ, zero, suc, compare, Ordering, ◌≡◌, refl, sym, ap, ◌∙◌, ◌⊎◌, inl, inr, Bool, true, false, some,
  List, [], ◌∷◌, ◌++◌, append-nil, arith, if◌then◌else◌, length, get_elem?,
}
use minigraf.Prelude.OrderedMap.{insert_ordered}
use minigraf.Prelude.OrderedMap.Entries.{
  IsIn, IsKey, IsIn-of_insert, IsKey-insert_new, IsKey-insert_old,
}
use minigraf.Graph.Fact.{Fact}
use minigraf.Graph.Index.{FactRef, AevtKey, ordered_aevt, compare_aevt, aevt_of}
use minigraf.Graph.Index
use minigraf.Graph.Store.{FactStorage, extend, index_facts, pending_refs}
use minigraf.Graph.Store.Writes.{extended, extend_lem, extended_step, refs_from}

eq_of_and_then :
    (o p : Ordering) → and_then o p ≡ Ordering.eq → (o ≡ Ordering.eq) × (p ≡ Ordering.eq)
eq_of_and_then Ordering.lt p e = cc
eq_of_and_then Ordering.eq p e = (refl, e)
eq_of_and_then Ordering.gt p e = cc

-- Keys that compare as equal are equal.
pub eq_of_compare_aevt : (a b : AevtKey) → compare_aevt a b ≡ Ordering.eq → a ≡ b
eq_of_compare_aevt a b e =
    let (attribute, more) = eq_of_and_then (compare_bytes a.attribute b.attribute) _ e in
    let (entity, times) = eq_of_and_then (compare a.entity b.entity) _ more in
    let (from, rest) = eq_of_and_then (compare_ℤ a.valid_from b.valid_from) _ times in
    let (to, count) = eq_of_and_then (compare_ℤ a.valid_to b.valid_to) _ rest in
    ground (arith, eq_of_compare_bytes a.attribute b.attribute attribute, entity, from, to, count)

-- The reference is the position of a fact with this key.
abbrev pub PointsTo : List Fact → AevtKey → FactRef → Type 0
PointsTo facts k r =
    (r.page_id ≡ 0) × ((f : Fact) × (get_elem? facts r.slot_index ≡ some f) × (aevt_of f ≡ k))

-- Each entry of the index points to a fact with its key, and the key of each fact has an entry.
pub record IsIndexed (facts : List Fact) (aevt : List (AevtKey × FactRef)) : Type 0 where
  pub points : (k : AevtKey) (r : FactRef) → IsIn (k, r) aevt → PointsTo facts k r
  pub listed : (f : Fact) → IsIn f facts → IsKey (aevt_of f) aevt

get_elem?-append :
    {A : Type 0} (xs ys : List A) (i : ℕ) (a : A)
    → get_elem? xs i ≡ some a
    → get_elem? (xs ++ ys) i ≡ some a
get_elem?-append [] ys i a e = cc
get_elem?-append (x ∷ xs) ys zero a e = e
get_elem?-append (x ∷ xs) ys (suc i) a e = get_elem?-append xs ys i a e

get_elem?-last : {A : Type 0} (xs : List A) (a : A) → get_elem? (xs ++ a ∷ []) (length xs) ≡ some a
get_elem?-last [] a = refl
get_elem?-last (x ∷ xs) a = get_elem?-last xs a

IsIn-of_append : {A : Type 0} (a : A) (xs ys : List A) → IsIn a (xs ++ ys) → IsIn a xs ⊎ IsIn a ys
IsIn-of_append a [] ys h = inr h
IsIn-of_append a (x ∷ xs) ys h = elim h [
  | inl e ↦ inl (inl e)
  | inr later ↦ elim (IsIn-of_append a xs ys later) [ inl l ↦ inl (inr l) | inr r ↦ inr r ]
]

IsIndexed-insert :
    (f : Fact) (facts : List Fact) (aevt : List (AevtKey × FactRef))
    → IsIndexed facts aevt
    → IsIndexed
        (facts ++ f ∷ [])
        (insert_ordered (aevt_of f) (record { page_id = 0; slot_index = length facts }) aevt)
IsIndexed-insert f facts aevt s = record {
  points = λ k r h.
      elim (IsIn-of_insert (aevt_of f) k (record { page_id = 0; slot_index = length facts }) r aevt
        eq_of_compare_aevt h) [
          | inl (key, new) ↦ rw (new) (refl, (f, get_elem?-last facts f, sym key))
          | inr old ↦
              let (page, (g, at, key)) = s.points k r old in
              (page, (g, get_elem?-append facts (f ∷ []) r.slot_index g at, key))
        ];
  listed = λ g h. elim (IsIn-of_append g facts (f ∷ []) h) [
    | inl old ↦ IsKey-insert_old (aevt_of f) (aevt_of g) _ aevt (s.listed g old)
    | inr new ↦ elim new [
      | inl e ↦ rw e (IsKey-insert_new (aevt_of f) _ aevt eq_of_compare_aevt)
      | inr never ↦ absurd never
    ]
  ];
}

-- The AEVT index of a store lists its log.
abbrev pub IsSynced : FactStorage → Type 0
IsSynced s = IsIndexed s.facts s.pending_indexes.aevt

IsSynced-extended_one : (f : Fact) (s : FactStorage) → IsSynced s → IsSynced (extended (f ∷ []) s)
unfolding extended index_facts refs_from Index.insert
IsSynced-extended_one f s h = IsIndexed-insert f s.facts s.pending_indexes.aevt h

extended_none : (s : FactStorage) → extended [] s ≡ s
unfolding extended index_facts refs_from
extended_none s = ap (λ l. record s { facts = l }) (append-nil s.facts)

IsSynced-extended : (facts : List Fact) (s : FactStorage) → IsSynced s → IsSynced (extended facts s)
IsSynced-extended [] s h = rw (extended_none s) h
IsSynced-extended (f ∷ facts) s h =
    rw (extended_step f facts s)
      (IsSynced-extended facts (extended (f ∷ []) s) (IsSynced-extended_one f s h))

ok-of_extend :
    (test : Bool) (t u : FactStorage) → (if test then ok t else err (coded int045)) ≡ ok u → t ≡ u
ok-of_extend true t u e = cc
ok-of_extend false t u e = cc

extend_none : (s t : FactStorage) → extend [] s ≡ ok t → extended [] s ≡ t
unfolding extend extended pending_refs refs_from
extend_none s t e = cc

-- What every writer does with its new facts keeps the index in step with the log.
pub extend-IsSynced :
    (facts : List Fact) (s t : FactStorage) → IsSynced s → extend facts s ≡ ok t → IsSynced t
extend-IsSynced [] s t h e =
    let same : extended [] s ≡ t = extend_none s t e in rw (sym same) (IsSynced-extended [] s h)
extend-IsSynced (f ∷ facts) s t h e =
    let same : extended (f ∷ facts) s ≡ t = ok-of_extend _ _ t (sym (extend_lem f facts s) ∙ e) in
    rw (sym same) (IsSynced-extended (f ∷ facts) s h)
