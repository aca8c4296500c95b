-- ===== src/Graph/Store.antt =====
-- `FactStorage` of src/graph/storage.rs: the log of facts, its duplicate keys and its indexes.
pub mod Query
pub mod Writes
pub mod InSync
pub mod Found
mod Tests
use minigraf.Prelude.Int.{ℤ, i64_of_u64}
use minigraf.Prelude.Text.{Text, bytes_eq}
use minigraf.Prelude.{
  ℕ, zero, suc, ◌+◌, ◌-◌, ◌%◌, ◌^◌, min, max, Bool, true, false, not, ◌&&◌, Option, none, some,
  List, [], ◌∷◌, ◌++◌, map, leb, ◌==◌, if◌then◌else◌, length, any,
}
use minigraf.Error.{Result, ok, err, coded, int045, ◌>>=◌}
use minigraf.Graph.Value.{Value, EntityId}
use minigraf.Graph.Value.Encode.{encode_value}
use minigraf.Graph.Fact.{Fact, TransactOptions, with_valid_time, valid_time_forever}
use minigraf.Graph.Fact
use minigraf.Graph.Index.{FactRef, EavtKey, AevtKey, Indexes, no_indexes}
use minigraf.Graph.Index
use minigraf.Graph.Net.{int_same}

-- `PendingKey`
pub record PendingKey : Type 0 where
  pub entity : EntityId
  pub attribute : Text
  pub value : List ℕ
  pub valid_from : ℤ
  pub valid_to : ℤ
  pub tx_count : ℕ
  pub asserted : Bool

unfoldable pub pending_key : Fact → PendingKey
pending_key f = record {
  entity = f.entity;
  attribute = f.attribute;
  value = encode_value f.value;
  valid_from = f.valid_from;
  valid_to = f.valid_to;
  tx_count = f.tx_count;
  asserted = f.asserted;
}

abbrev pub bool_same : Bool → Bool → Bool
bool_same true b = b
bool_same false b = not b

abbrev pub pending_same : PendingKey → PendingKey → Bool
pending_same a b =
    a.entity == b.entity
    && (bytes_eq a.attribute b.attribute
        && (bytes_eq a.value b.value
            && (int_same a.valid_from b.valid_from
                && (int_same a.valid_to b.valid_to
                    && (a.tx_count == b.tx_count && bool_same a.asserted b.asserted)))))

-- A hash set of pending keys.
abbrev pub holds_key : PendingKey → List PendingKey → Bool
holds_key k keys = any (pending_same k) keys

-- `CommittedFactReader` of src/storage/mod.rs
pub record CommittedFactReader : Type 0 where
  pub resolve : FactRef → Result Fact
  pub stream_all : Result (List Fact)

-- `CommittedIndexReader` of src/storage/mod.rs: the two scans that the store uses.
pub record CommittedIndexReader : Type 0 where
  pub range_scan_eavt : EavtKey → Option EavtKey → Result (List FactRef)
  pub range_scan_aevt : AevtKey → Option AevtKey → Result (List FactRef)

-- `FactData` and the transaction counter.
pub record FactStorage : Type 0 where
  pub facts : List Fact
  pub pending_keys : List PendingKey
  pub pending_indexes : Indexes
  pub committed : Option CommittedFactReader
  pub committed_index_reader : Option CommittedIndexReader
  pub tx_counter : ℕ

-- `FactStorage::new`
abbrev pub new : FactStorage
new = record {
  facts = [];
  pending_keys = [];
  pending_indexes = no_indexes;
  committed = none;
  committed_index_reader = none;
  tx_counter = 0;
}

-- `pending_refs`: the references of `count` facts from the position `base` on.
unfoldable pub pending_refs : ℕ → ℕ → Result (List FactRef)
pending_refs base zero = ok []
pending_refs base (suc count) =
    if leb (min base (2 ^ 64 - 1)) (2 ^ 32 - 1)
    then (pending_refs (suc base) count >>= λ refs.
        ok (record { page_id = 0; slot_index = min base (2 ^ 64 - 1) } ∷ refs))
    else err (coded int045)

-- The loop of the writers over the new facts and their references.
unfoldable pub index_facts : List FactRef → List Fact → FactStorage → FactStorage
index_facts [] facts s = s
index_facts (r ∷ refs) [] s = s
index_facts (r ∷ refs) (f ∷ facts) s = index_facts refs facts (record s {
  pending_keys = pending_key f ∷ s.pending_keys;
  pending_indexes = Index.insert f r s.pending_indexes;
})

-- What every writer does with its new facts.
unfoldable pub extend : List Fact → FactStorage → Result FactStorage
extend facts s = pending_refs (length s.facts) (length facts) >>= λ refs.
    let indexed = index_facts refs facts s in ok (record indexed { facts = indexed.facts ++ facts })

-- `fetch_add(1)` on the counter, which wraps around; the saturating sum is the count of the batch.
unfoldable pub allocate_tx_count : FactStorage → ℕ × FactStorage
allocate_tx_count s =
    (min (s.tx_counter + 1) (2 ^ 64 - 1), record s { tx_counter = (s.tx_counter + 1) % 2 ^ 64 })

abbrev pub or_else {ℓ} : {A : Type ℓ} → A → Option A → A
or_else a none = a
or_else a (some b) = b

-- A new fact of a batch.
unfoldable pub dated : ℕ → ℕ → TransactOptions → EntityId × Text × Value → Fact
dated tx_id tx_count opts (entity, attribute, value) =
    with_valid_time entity attribute value tx_id tx_count
      (or_else (i64_of_u64 tx_id) opts.valid_from) (or_else valid_time_forever opts.valid_to)

abbrev pub no_options : TransactOptions
no_options = record { valid_from = none; valid_to = none }

-- A writer's outcome with the store that it leaves: the counter has moved even if it fails.
abbrev pub Written : Type 0 → Type 0
Written A = Result A × FactStorage

abbrev pub commit : {A : Type 0} → A → FactStorage → Result FactStorage → Written A
commit answer s (ok t) = (ok answer, t)
commit answer s (err e) = (err e, s)

-- `FactStorage::transact`; the clock's reading is an argument.
unfoldable pub transact :
    ℕ → List (EntityId × Text × Value) → Option TransactOptions → FactStorage → Written ℕ
transact tx_id tuples opts s =
    let counted = allocate_tx_count s in
    let facts = map (dated tx_id (counted.0) (or_else no_options opts)) tuples in
    commit tx_id counted.1 (extend facts counted.1)

-- The options of a fact come before those of its batch.
unfoldable pub dated_of_batch :
    ℕ → ℕ → TransactOptions → EntityId × Text × Value × Option TransactOptions → Fact
dated_of_batch tx_id tx_count default (entity, attribute, value, own) =
    dated tx_id tx_count (or_else default own) (entity, attribute, value)

-- `FactStorage::transact_batch`
unfoldable pub transact_batch :
    ℕ
    → List (EntityId × Text × Value × Option TransactOptions)
    → Option TransactOptions
    → FactStorage
    → Written (ℕ × ℕ)
transact_batch tx_id tuples default s =
    let counted = allocate_tx_count s in
    let facts = map (dated_of_batch tx_id (counted.0) (or_else no_options default)) tuples in
    commit (tx_id, counted.0) counted.1 (extend facts counted.1)

unfoldable pub retraction : ℕ → ℕ → EntityId × Text × Value → Fact
retraction tx_id tx_count (entity, attribute, value) =
    record (Fact.retract entity attribute value tx_id) { tx_count = tx_count }

-- `FactStorage::retract`
unfoldable pub retract : ℕ → List (EntityId × Text × Value) → FactStorage → Written (ℕ × ℕ)
retract tx_id tuples s =
    let counted = allocate_tx_count s in
    commit (tx_id, counted.0) counted.1
      (extend (map (retraction tx_id (counted.0)) tuples) counted.1)

-- `FactStorage::load_fact`
unfoldable pub load_fact : Fact → FactStorage → Written Bool
load_fact f s =
    if holds_key (pending_key f) s.pending_keys
    then (ok false, s)
    else commit true s (extend (f ∷ []) s)

-- The facts of a batch that are neither in the store nor earlier in the batch.
unfoldable pub new_facts : List PendingKey → List Fact → List Fact
new_facts keys [] = []
new_facts keys (f ∷ facts) =
    if holds_key (pending_key f) keys
    then new_facts keys facts
    else f ∷ new_facts (pending_key f ∷ keys) facts

-- `FactStorage::load_facts`
unfoldable pub load_facts : List Fact → FactStorage → Written ℕ
load_facts facts s =
    let fresh = new_facts s.pending_keys facts in commit (length fresh) s (extend fresh s)

-- The greatest count of some facts, 0 if there are none.
unfoldable pub max_tx_count : List Fact → ℕ
max_tx_count [] = 0
max_tx_count (f ∷ facts) = max f.tx_count (max_tx_count facts)

-- `FactStorage::restore_tx_counter`
unfoldable pub restore_tx_counter : FactStorage → FactStorage
restore_tx_counter s = record s { tx_counter = max s.tx_counter (max_tx_count s.facts) }

-- `FactStorage::restore_tx_counter_from`
unfoldable pub restore_tx_counter_from : ℕ → FactStorage → FactStorage
restore_tx_counter_from count s = record s { tx_counter = count }

-- `FactStorage::clear`
unfoldable pub clear : FactStorage → FactStorage
clear s = new

-- `CheckpointGuard::publish`
unfoldable pub publish : CommittedFactReader → CommittedIndexReader → FactStorage → FactStorage
publish reader index_reader s = record s {
  committed = some reader;
  committed_index_reader = some index_reader;
  facts = [];
  pending_keys = [];
  pending_indexes = no_indexes;
}
