-- ===== src/Graph/Store/Writes.antt =====
-- What the writers of `FactStorage` leave in the store (src/graph/storage.rs).
pub mod Loads
pub mod Batch
pub mod Counter
use minigraf.Prelude.{
  ℕ, zero, suc, ◌+◌, ◌^◌, ◌≤◌, ◌<◌, ◌≡◌, refl, sym, ap, ◌∙◌, inl, inr, List, [], ◌∷◌, ◌++◌,
  append_assoc, arith, leb, if◌then◌else◌, Bool-cases, length, length-append,
}
use minigraf.Error.{ok, err, coded, int045, ◌>>=◌}
use minigraf.Graph.Fact.{Fact}
use minigraf.Graph.Index.{FactRef}
use minigraf.Graph.Index
use minigraf.Graph.Store.{FactStorage, pending_key, pending_refs, index_facts, extend, holds_key}

-- The references to `count` positions from `base` on.
unfoldable pub refs_from : ℕ → ℕ → List FactRef
refs_from base zero = []
refs_from base (suc count) = record { page_id = 0; slot_index = base } ∷ refs_from (suc base) count

pending_refs_fit :
    (base count : ℕ) → base + count ≤ 2 ^ 32 → pending_refs base count ≡ ok (refs_from base count)
unfolding pending_refs refs_from
pending_refs_fit base zero h = refl
pending_refs_fit base (suc count) h =
    rw (pending_refs_fit (suc base) count (omega arith)) (ground arith)

pending_refs_full :
    (base count : ℕ)
    → 2 ^ 32 < base + count
    → 0 < count
    → pending_refs base count ≡ err (coded int045)
unfolding pending_refs
pending_refs_full base zero h k = absurd (omega arith)
pending_refs_full base (suc zero) h k = ground arith
pending_refs_full base (suc (suc count)) h k =
    rw (pending_refs_full (suc base) (suc count) (omega arith) (omega arith)) (ground arith)

-- The store after new facts that fit.
unfoldable pub extended : List Fact → FactStorage → FactStorage
extended facts s =
    let indexed = index_facts (refs_from (length s.facts) (length facts)) facts s in
    record indexed { facts = indexed.facts ++ facts }

-- New facts are appended with one reference each if their positions stay below 2 ^ 32, and are
-- refused as a whole with INT-045 otherwise.
pub extend_lem :
    (f : Fact) (facts : List Fact) (s : FactStorage)
    → extend (f ∷ facts) s ≡ (
        if leb (length s.facts + length (f ∷ facts)) (2 ^ 32)
        then ok (extended (f ∷ facts) s)
        else err (coded int045))
unfolding extend extended
extend_lem f facts s = elim (Bool-cases (leb (length s.facts + length (f ∷ facts)) (2 ^ 32))) [
  | inl fits ↦ rw (pending_refs_fit (length s.facts) (length (f ∷ facts)) (ground arith), fits) refl
  | inr full ↦
      rw
        (pending_refs_full (length s.facts) (length (f ∷ facts)) (ground arith) (omega arith), full)
        refl
]

pub extend_fits :
    (facts : List Fact) (s : FactStorage)
    → length s.facts + length facts ≤ 2 ^ 32
    → extend facts s ≡ ok (extended facts s)
unfolding extend extended
extend_fits facts s h = rw (pending_refs_fit (length s.facts) (length facts) h) refl

pub index_facts-facts :
    (refs : List FactRef) (facts : List Fact) (s : FactStorage)
    → (index_facts refs facts s).facts ≡ s.facts
unfolding index_facts
index_facts-facts [] facts s = refl
index_facts-facts (r ∷ refs) [] s = refl
index_facts-facts (r ∷ refs) (f ∷ facts) s = index_facts-facts refs facts _

pub index_facts-tx_counter :
    (refs : List FactRef) (facts : List Fact) (s : FactStorage)
    → (index_facts refs facts s).tx_counter ≡ s.tx_counter
unfolding index_facts
index_facts-tx_counter [] facts s = refl
index_facts-tx_counter (r ∷ refs) [] s = refl
index_facts-tx_counter (r ∷ refs) (f ∷ facts) s = index_facts-tx_counter refs facts _

index_facts_with :
    (refs : List FactRef) (facts log : List Fact) (s : FactStorage)
    → index_facts refs facts (record s { facts = log })
      ≡ record (index_facts refs facts s) { facts = log }
unfolding index_facts
index_facts_with [] facts log s = refl
index_facts_with (r ∷ refs) [] log s = refl
index_facts_with (r ∷ refs) (f ∷ facts) log s = index_facts_with refs facts log _

pub facts-extended :
    (facts : List Fact) (s : FactStorage) → (extended facts s).facts ≡ s.facts ++ facts
unfolding extended
facts-extended facts s = ap (λ l. l ++ facts) (index_facts-facts _ facts s)

pub tx_counter-extended :
    (facts : List Fact) (s : FactStorage) → (extended facts s).tx_counter ≡ s.tx_counter
unfolding extended
tx_counter-extended facts s = index_facts-tx_counter _ facts s

-- The store with the key and the index entries of one more fact.
unfoldable pub with_indexed : Fact → FactStorage → FactStorage
with_indexed f s = record s {
  pending_keys = pending_key f ∷ s.pending_keys;
  pending_indexes =
      Index.insert f (record { page_id = 0; slot_index = length s.facts }) s.pending_indexes;
}

length-snoc : (facts : List Fact) (f : Fact) → suc (length facts) ≡ length (facts ++ f ∷ [])
length-snoc facts f = omega (arith, length-append facts (f ∷ []))

-- A batch is the first fact, then the others.
pub extended_step :
    (f : Fact) (facts : List Fact) (s : FactStorage)
    → extended (f ∷ facts) s ≡ extended facts (extended (f ∷ []) s)
unfolding extended index_facts refs_from with_indexed
extended_step f facts s =
    let one = with_indexed f s in
    let refs = refs_from (suc (length s.facts)) (length facts) in
    let log = s.facts ++ f ∷ [] in
    ap (λ l. record (index_facts refs facts one) { facts = l ++ f ∷ facts })
      (index_facts-facts refs facts one)
    ∙ ap (λ l. record (index_facts refs facts one) { facts = l })
        (sym (append_assoc s.facts (f ∷ []) facts))
    ∙ ap (λ n. record (index_facts (refs_from n (length facts)) facts one) { facts = log ++ facts })
        (length-snoc s.facts f)
    ∙ sym (
        ap (λ (u : FactStorage). record u { facts = u.facts ++ facts })
          (index_facts_with (refs_from (length log) (length facts)) facts log one))
