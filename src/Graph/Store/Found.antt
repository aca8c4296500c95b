-- ===== src/Graph/Store/Found.antt =====
-- A lookup by attribute finds the log's facts with this attribute (src/graph/storage.rs).
use minigraf.Prelude.Order.{and_then, compare_bytes, compare_self}
use minigraf.Prelude.Text.{Text, bytes_eq}
use minigraf.Prelude.{
  ℕ, zero, suc, compare, Ordering, ◌≡◌, refl, sym, ap, ◌∙◌, ◌⊎◌, inl, inr, Bool, true, false, none,
  some, List, [], ◌∷◌, append-nil, if◌then◌else◌, get_elem?, keep,
}
use minigraf.Prelude.OrderedMap.{in_range, is_lt, values}
use minigraf.Prelude.OrderedMap.Entries.{IsIn}
use minigraf.Error.{ok}
use minigraf.Graph.Fact.{Fact}
use minigraf.Graph.Index.{FactRef, AevtKey, ordered_aevt, compare_aevt, aevt_of}
use minigraf.Graph.Store.{FactStorage}
use minigraf.Graph.Store.Query.{
  attribute_facts, attribute_key, successor, resolve_fact_ref, resolve_all, is_unindexed, all_facts,
}
use minigraf.Graph.Store.Query.Ranges.{IsAevt, in_range-attribute_key}
use minigraf.Graph.Store.InSync.{IsSynced, PointsTo}

IsIn-of_get : {A : Type 0} (xs : List A) (i : ℕ) (a : A) → get_elem? xs i ≡ some a → IsIn a xs
IsIn-of_get [] i a e = cc
IsIn-of_get (x ∷ xs) zero a e = inl cc
IsIn-of_get (x ∷ xs) (suc i) a e = inr (IsIn-of_get xs i a e)

IsIn-of_keep_step :
    {A : Type 0} (p : A → Bool) (a x : A) (xs rest : List A) (b : Bool)
    → p x ≡ b
    → (IsIn a rest → (IsIn a xs) × (p a ≡ true))
    → IsIn a (if b then x ∷ rest else rest)
    → (IsIn a (x ∷ xs)) × (p a ≡ true)
IsIn-of_keep_step p a x xs rest true e later h = elim h [
  | inl same ↦ (inl same, ap p same ∙ e)
  | inr more ↦ let (there, holds) = later more in (inr there, holds)
]
IsIn-of_keep_step p a x xs rest false e later h = let (there, holds) = later h in (inr there, holds)

IsIn-of_keep :
    {A : Type 0} (p : A → Bool) (a : A) (xs : List A)
    → IsIn a (keep p xs)
    → (IsIn a xs) × (p a ≡ true)
IsIn-of_keep p a [] h = absurd h
IsIn-of_keep p a (x ∷ xs) h =
    IsIn-of_keep_step p a x xs (keep p xs) (p x) refl (IsIn-of_keep p a xs) h

IsIn-keep_step :
    {A : Type 0} (p : A → Bool) (a x : A) (rest : List A) (b : Bool)
    → p x ≡ b
    → p a ≡ true
    → (a ≡ x) ⊎ IsIn a rest
    → IsIn a (if b then x ∷ rest else rest)
IsIn-keep_step p a x rest true e holds h = h
IsIn-keep_step p a x rest false e holds h = elim h [
  | inl same ↦ let never = sym holds ∙ ap p same ∙ e in cc
  | inr later ↦ later
]

IsIn-keep :
    {A : Type 0} (p : A → Bool) (a : A) (xs : List A) → IsIn a xs → p a ≡ true → IsIn a (keep p xs)
IsIn-keep p a [] h holds = absurd h
IsIn-keep p a (x ∷ xs) h holds =
    IsIn-keep_step p a x (keep p xs) (p x) refl holds
      (elim h [ inl same ↦ inl same | inr later ↦ inr (IsIn-keep p a xs later holds) ])

-- The facts behind some index entries: one of the log for each entry, with its key.
record Resolved (s : FactStorage) (m : List (AevtKey × FactRef)) : Type 0 where
  found : List Fact
  resolved : resolve_all s (values m) ≡ ok found
  behind : (g : Fact) → IsIn g found → (IsIn g s.facts) × ((r : FactRef) × IsIn (aevt_of g, r) m)
  ahead :
      (k : AevtKey) (r : FactRef) → IsIn (k, r) m → (g : Fact) × (IsIn g found) × (aevt_of g ≡ k)

resolve_pending :
    (s : FactStorage) (r : FactRef) (f : Fact)
    → r.page_id ≡ 0
    → get_elem? s.facts r.slot_index ≡ some f
    → resolve_fact_ref s r ≡ ok f
unfolding resolve_fact_ref
resolve_pending s r f page at = rw (page, at) refl

Resolved-entries :
    (s : FactStorage) (m : List (AevtKey × FactRef))
    → ((k : AevtKey) (r : FactRef) → IsIn (k, r) m → PointsTo s.facts k r)
    → Resolved s m
unfolding resolve_all
Resolved-entries s [] h = record {
  found = [];
  resolved = refl;
  behind = λ g i. absurd i;
  ahead = λ k r i. absurd i;
}
Resolved-entries s ((k, r) ∷ m) h =
    let rest = Resolved-entries s m (λ j q i. h j q (inr i)) in
    let (page, (f, at, key)) = h k r (inl refl) in
    record {
      found = f ∷ rest.found;
      resolved = rw (resolve_pending s r f page at, rest.resolved) refl;
      behind = λ g i. elim i [
        | inl same ↦
            rw same (IsIn-of_get s.facts r.slot_index f at, (r, inl (ap (λ x. (x, r)) key)))
        | inr later ↦ let (known, (q, there)) = rest.behind g later in (known, (q, inr there))
      ];
      ahead = λ j q i. elim i [
        | inl same ↦ (f, inl refl, key ∙ sym (ap (λ p. p.0) same))
        | inr later ↦ let (g, there, its) = rest.ahead j q later in (g, inr there, its)
      ];
    }

-- The scan for an attribute never panics: its end is not below its start.
start_before_end :
    (a : Text) → is_lt (compare_aevt (attribute_key (successor a)) (attribute_key a)) ≡ false
start_before_end a = rw (above a) refl
  where
    above : (b : Text) → compare_bytes (successor b) b ≡ Ordering.gt
    above [] = refl
    above (x ∷ b) = above_step x b (above b)
      where
        above_step :
            (x : ℕ) (b : Text)
            → compare_bytes (successor b) b ≡ Ordering.gt
            → and_then (compare x x) (compare_bytes (successor b) b) ≡ Ordering.gt
        above_step x b e = rw (compare_self x) e

-- What a lookup for an attribute has to find.
pub record Finds (attribute : Text) (facts : List Fact) (found : List Fact) : Type 0 where
  pub only : (f : Fact) → IsIn f found → (IsIn f facts) × (bytes_eq f.attribute attribute ≡ true)
  pub all :
      (f : Fact)
      → IsIn f facts
      → bytes_eq f.attribute attribute ≡ true
      → (g : Fact) × (IsIn g found) × (aevt_of g ≡ aevt_of f)

-- The times of all facts are 64-bit numbers.
abbrev pub HasTimes : FactStorage → Type 0
HasTimes s = (f : Fact) → IsIn f s.facts → IsAevt (aevt_of f)

Finds-range :
    (a : Text) (s : FactStorage)
    → IsSynced s
    → HasTimes s
    → (r : Resolved s (
        keep
          (λ entry. in_range (attribute_key a) (attribute_key (successor a)) entry.0)
          s.pending_indexes.aevt))
    → Finds a s.facts r.found
Finds-range a s sync times r = record {
  only = λ f i.
      let (known, (q, there)) = r.behind f i in
      let (_, inside) = IsIn-of_keep _ (aevt_of f, q) s.pending_indexes.aevt there in
      (known, sym (in_range-attribute_key a (aevt_of f) (times f known)) ∙ inside);
  all = λ f i holds.
      let (q, there) = sync.listed f i in
      r.ahead (aevt_of f) q (
        IsIn-keep _ (aevt_of f, q) s.pending_indexes.aevt there
          (in_range-attribute_key a (aevt_of f) (times f i) ∙ holds));
}

-- A store without committed pages.
abbrev pub in_memory : FactStorage → FactStorage
in_memory s = record s { committed = none; committed_index_reader = none }

Finds-scan :
    (a : Text) (s : FactStorage) → Finds a s.facts (keep (λ f. bytes_eq f.attribute a) s.facts)
Finds-scan a s = record {
  only = λ f i. IsIn-of_keep _ f s.facts i;
  all = λ f i holds. (f, IsIn-keep _ f s.facts i holds, refl);
}

list_cases : {A : Type 0} (xs : List A) → (xs ≡ []) ⊎ (is_unindexed xs none ≡ false)
list_cases [] = inl refl
list_cases (x ∷ xs) = inr refl

unindexed : {A : Type 0} (xs : List A) → xs ≡ [] → is_unindexed xs none ≡ true
unindexed xs e = rw e refl

-- In a store without committed pages whose index lists its log, a lookup by attribute neither panics
-- nor fails. All that it finds are facts of the log with this attribute, and for each of those it
-- finds one with the same attribute, entity, times and count.
pub attribute_facts-Finds :
    (a : Text) (s : FactStorage)
    → IsSynced s
    → HasTimes s
    → (found : List Fact) × (attribute_facts a (in_memory s) ≡ some (ok found))
      × Finds a s.facts found
unfolding attribute_facts all_facts resolve_all
attribute_facts-Finds a s sync times = elim (list_cases s.pending_indexes.aevt) [
  | inl empty ↦ (
    keep (λ f. bytes_eq f.attribute a) s.facts,
    rw (unindexed s.pending_indexes.aevt empty) refl,
    Finds-scan a s,
  )
  | inr indexed ↦
      let r =
        Resolved-entries (in_memory s)
          (keep (λ entry. in_range (attribute_key a) (attribute_key (successor a)) entry.0)
            s.pending_indexes.aevt)
          (λ k q i. sync.points k q ((IsIn-of_keep _ (k, q) s.pending_indexes.aevt i).0)) in
      (
        r.found,
        rw (indexed, start_before_end a, r.resolved, append-nil r.found) refl,
        Finds-range a (in_memory s) sync times r,
      )
]
