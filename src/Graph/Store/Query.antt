-- ===== src/Graph/Store/Query.antt =====
-- The reads of `FactStorage` (src/graph/storage.rs): the log, the snapshots and the index lookups.
pub mod Ranges
use minigraf.Prelude.Int.{i64_min, u64_of_i64}
use minigraf.Prelude.Text.{Text, bytes_eq}
use minigraf.Prelude.{
  ◌+◌, ◌%◌, ◌^◌, Bool, true, false, ◌&&◌, Option, none, some, List, [], ◌∷◌, ◌++◌, leb, ◌==◌,
  if◌then◌else◌, get_elem?, keep,
}
use minigraf.Prelude.OrderedMap.{range, range_from, values}
use minigraf.Error.{Result, ok, err, coded, int045, int046, ◌>>=◌, ok_or}
use minigraf.Graph.Value.{EntityId}
use minigraf.Graph.Fact.{Fact, AsOf, counter, timestamp, slot}
use minigraf.Graph.Index.{FactRef, EavtKey, AevtKey, ordered_eavt, ordered_aevt}
use minigraf.Graph.Store.{FactStorage, CommittedIndexReader}

-- A read that may panic (`none`) or fail.
abbrev pub Read : Type 0 → Type 0
Read A = Option (Result A)

-- `resolve_fact_ref`
unfoldable pub resolve_fact_ref : FactStorage → FactRef → Result Fact
resolve_fact_ref s r =
    if r.page_id == 0
    then ok_or (get_elem? s.facts r.slot_index) int045
    else elim s.committed [ none ↦ err (coded int046) | some loader ↦ loader.resolve r ]

unfoldable pub resolve_all : FactStorage → List FactRef → Result (List Fact)
resolve_all s [] = ok []
resolve_all s (r ∷ refs) =
    resolve_fact_ref s r >>= λ f. resolve_all s refs >>= λ facts. ok (f ∷ facts)

abbrev pub committed_facts : FactStorage → Result (List Fact)
committed_facts s = elim s.committed [ none ↦ ok [] | some loader ↦ loader.stream_all ]

-- `all_facts`
unfoldable pub all_facts : FactStorage → Result (List Fact)
all_facts s = committed_facts s >>= λ old. ok (old ++ s.facts)

-- `filter_facts_as_of`
unfoldable pub filter_facts_as_of : List Fact → AsOf → List Fact
filter_facts_as_of facts (counter n) = keep (λ f. leb f.tx_count n) facts
filter_facts_as_of facts (timestamp t) = keep (λ f. leb f.tx_id (u64_of_i64 t)) facts
filter_facts_as_of facts (slot name) = []

-- `FactStorage::get_facts_as_of`
unfoldable pub get_facts_as_of : AsOf → FactStorage → Result (List Fact)
get_facts_as_of as_of s = all_facts s >>= λ facts. ok (filter_facts_as_of facts as_of)

-- `FactStorage::get_asserted_facts`
unfoldable pub get_asserted_facts : FactStorage → Result (List Fact)
get_asserted_facts s = all_facts s >>= λ facts. ok (keep (λ f. f.asserted) facts)

-- Whether a lookup has no index to read.
abbrev pub is_unindexed {ℓ} : {A : Type ℓ} → List A → Option CommittedIndexReader → Bool
is_unindexed [] none = true
is_unindexed [] (some reader) = false
is_unindexed (x ∷ xs) reader = false

-- The least keys of an entity, of an attribute, and of both; the bounds of the scans.
abbrev pub entity_key : EntityId → Text → EavtKey
entity_key entity attribute = record {
  entity = entity;
  attribute = attribute;
  valid_from = i64_min;
  valid_to = i64_min;
  tx_count = 0;
}

abbrev pub attribute_key : Text → AevtKey
attribute_key attribute = record {
  attribute = attribute;
  entity = 0;
  valid_from = i64_min;
  valid_to = i64_min;
  tx_count = 0;
}

-- `format!("{attribute}\0")`
abbrev pub successor : Text → Text
successor attribute = attribute ++ 0 ∷ []

-- The UUID after this one; it wraps around.
abbrev pub next_entity : EntityId → EntityId
next_entity entity = (entity + 1) % 2 ^ 128

abbrev pub scan_eavt : FactStorage → EavtKey → EavtKey → Result (List FactRef)
scan_eavt s start end = elim s.committed_index_reader [
  | none ↦ ok []
  | some reader ↦ reader.range_scan_eavt start (some end)
]

abbrev pub scan_aevt : FactStorage → AevtKey → AevtKey → Result (List FactRef)
scan_aevt s start end = elim s.committed_index_reader [
  | none ↦ ok []
  | some reader ↦ reader.range_scan_aevt start (some end)
]

-- The entries up to the first one that fails the test.
unfoldable pub take_while {ℓ} : {A : Type ℓ} → (A → Bool) → List A → List A
take_while p [] = []
take_while p (x ∷ xs) = let rest = take_while p xs in if p x then x ∷ rest else []

-- The facts of the pending references, then those of the committed ones that pass the test.
abbrev pub gather :
    FactStorage → List FactRef → Result (List FactRef) → (Fact → Bool) → Result (List Fact)
gather s pending scan test = resolve_all s pending >>= λ new.
    scan >>= λ refs. resolve_all s refs >>= λ old. ok (new ++ keep test old)

-- `entity_facts`
unfoldable pub entity_facts : EntityId → FactStorage → Read (List Fact)
entity_facts entity s =
    let here = λ (f : Fact). f.entity == entity in
    if is_unindexed s.pending_indexes.eavt s.committed_index_reader
    then some (committed_facts s >>= λ old. ok (keep here s.facts ++ keep here old))
    else elim (range (entity_key entity []) (entity_key (next_entity entity) [])
        s.pending_indexes.eavt) [
          | none ↦ none
          | some entries ↦ some (
              gather s (values (take_while (λ entry. (entry.0).entity == entity) entries))
                (scan_eavt s (entity_key entity []) (entity_key (next_entity entity) []))
                (λ f. true))
        ]

-- `entity_attribute_facts`
unfoldable pub entity_attribute_facts : EntityId → Text → FactStorage → Read (List Fact)
entity_attribute_facts entity attribute s =
    let here = λ (f : Fact). f.entity == entity && bytes_eq f.attribute attribute in
    if is_unindexed s.pending_indexes.eavt s.committed_index_reader
    then some (committed_facts s >>= λ old. ok (keep here s.facts ++ keep here old))
    else some (
        gather s
          (values (
            take_while
              (λ entry. (entry.0).entity == entity && bytes_eq ((entry.0).attribute) attribute)
              (range_from (entity_key entity attribute) s.pending_indexes.eavt)))
          (scan_eavt s (entity_key entity attribute) (entity_key entity (successor attribute)))
          here)

-- `attribute_facts`
unfoldable pub attribute_facts : Text → FactStorage → Read (List Fact)
attribute_facts attribute s =
    let here = λ (f : Fact). bytes_eq f.attribute attribute in
    if is_unindexed s.pending_indexes.aevt s.committed_index_reader
    then some (all_facts s >>= λ facts. ok (keep here facts))
    else elim (range (attribute_key attribute) (attribute_key (successor attribute))
        s.pending_indexes.aevt) [
          | none ↦ none
          | some entries ↦ some (
              gather s (values entries)
                (scan_aevt s (attribute_key attribute) (attribute_key (successor attribute))) here)
        ]

-- `Lookup`
pub data Lookup : Type 0 where
  entity : EntityId → Lookup
  entity_attribute : EntityId → Text → Lookup
  attribute : Text → Lookup

abbrev pub look_up : Lookup → FactStorage → Read (List Fact)
look_up (entity e) s = entity_facts e s
look_up (entity_attribute e a) s = entity_attribute_facts e a s
look_up (attribute a) s = attribute_facts a s

abbrev pub followed_by : Read (List Fact) → Read (List Fact) → Read (List Fact)
followed_by none rest = none
followed_by (some (err e)) rest = some (err e)
followed_by (some (ok facts)) none = none
followed_by (some (ok facts)) (some (err e)) = some (err e)
followed_by (some (ok facts)) (some (ok more)) = some (ok (facts ++ more))

-- `FactStorage::get_facts_for_lookups`
pub get_facts_for_lookups : List Lookup → FactStorage → Read (List Fact)
get_facts_for_lookups [] s = some (ok [])
get_facts_for_lookups (l ∷ lookups) s = followed_by (look_up l s) (get_facts_for_lookups lookups s)
