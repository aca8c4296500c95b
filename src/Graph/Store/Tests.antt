-- ===== src/Graph/Store/Tests.antt =====
-- The store theorems at small stores.
use minigraf.Prelude.Int.{pos, i64_max}
use minigraf.Prelude.Text.{Text}
use minigraf.Error.{coded, ok, err, int045}
use minigraf.Prelude.{
  ◌+◌, ◌-◌, ◌^◌, ◌≡◌, refl, inl, inr, true, Option, none, some, List, [], ◌∷◌, arith, leb,
  if◌then◌else◌,
}
use minigraf.Graph.Value.{Value, EntityId, integer, string}
use minigraf.Graph.Fact.{Fact, TransactOptions}
use minigraf.Graph.Index.{FactRef, EavtKey, AevtKey, no_indexes, ordered_eavt, ordered_aevt}
use minigraf.Graph.Store.{FactStorage, new, index_facts, extend, load_facts, transact}
use minigraf.Graph.Store.Query.{attribute_facts, entity_facts}
use minigraf.Graph.Store.Query.Ranges.{entity_facts_last}
use minigraf.Graph.Store.Writes.{extended, extend_lem, refs_from}
use minigraf.Graph.Store.InSync.{IsSynced, extend-IsSynced}
use minigraf.Graph.Store.Found.{in_memory, Finds, HasTimes, attribute_facts-Finds}
use minigraf.Graph.Store.Writes.Loads.{load_each, load_facts-load_each}
use minigraf.Graph.Store.Writes.Batch.{IsReady, Appends}
use minigraf.Graph.Store.Writes.Counter.{Asserts, transact-Appends}

abbrev age : Text
age = 97 ∷ 103 ∷ 101 ∷ []

abbrev first_fact : Fact
first_fact = record {
  entity = 4;
  attribute = age;
  value = integer (pos 30);
  tx_id = 1000;
  tx_count = 2;
  valid_from = pos 0;
  valid_to = i64_max;
  asserted = true;
}

-- One fact, whose count is above the counter.
abbrev one_fact : FactStorage
one_fact = record new { facts = first_fact ∷ [] }

abbrev counted_fact : FactStorage
counted_fact = record one_fact { tx_counter = 2 }

abbrev tuples : List (EntityId × Text × Value)
tuples = (5, age, integer (pos 31)) ∷ (6, age, string age) ∷ []

counted_fact-IsReady : IsReady counted_fact 2
counted_fact-IsReady = record {
  counted = (omega arith, tt);
  room = omega arith;
  counter_room = omega arith;
}

counted_fact-IsReady_one : IsReady counted_fact 1
counted_fact-IsReady_one = record {
  counted = (omega arith, tt);
  room = omega arith;
  counter_room = omega arith;
}

transact-Appends_example :
    Appends (Asserts 1234 none) tuples counted_fact 1234 (transact 1234 tuples none counted_fact)
transact-Appends_example = transact-Appends 1234 tuples none counted_fact counted_fact-IsReady

abbrev dated_tuple : EntityId × Text × Value × Option TransactOptions
dated_tuple =
    (5, age, integer (pos 31), some (record { valid_from = some (pos 7); valid_to = none }))

extend_lem_example : extend (first_fact ∷ []) one_fact ≡ (
    if leb (1 + 1) (2 ^ 32) then ok (extended (first_fact ∷ []) one_fact) else err (coded int045))
extend_lem_example = extend_lem first_fact [] one_fact

load_facts-load_each_example :
    load_facts (first_fact ∷ first_fact ∷ []) new ≡ load_each (first_fact ∷ first_fact ∷ []) 0 new
load_facts-load_each_example = load_facts-load_each (first_fact ∷ first_fact ∷ []) new (omega arith)

abbrev age_key : AevtKey
age_key = record { attribute = age; entity = 9; valid_from = pos 4; valid_to = pos 8; tx_count = 1 }

abbrev age_of_nine : EavtKey
age_of_nine = record {
  entity = 9;
  attribute = age;
  valid_from = pos 4;
  valid_to = pos 8;
  tx_count = 1;
}

abbrev age_entry : EavtKey × FactRef
age_entry = (age_of_nine, record { page_id = 0; slot_index = 0 })

abbrev indexed : FactStorage
indexed = record one_fact { pending_indexes = record no_indexes { eavt = age_entry ∷ [] } }

entity_facts_last_example : entity_facts (2 ^ 128 - 1) indexed ≡ none
entity_facts_last_example = entity_facts_last indexed age_entry [] refl

new-IsSynced : IsSynced new
new-IsSynced = record { points = λ k r i. absurd i; listed = λ f i. absurd i }

-- A store with one fact that was added as the writers do.
abbrev one_indexed : FactStorage
one_indexed = extended (first_fact ∷ []) new

one_extended : extend (first_fact ∷ []) new ≡ ok one_indexed
one_extended = extend_lem first_fact [] new

extend-IsSynced_example : IsSynced one_indexed
extend-IsSynced_example =
    extend-IsSynced (first_fact ∷ []) new one_indexed new-IsSynced one_extended

one_indexed-HasTimes : HasTimes one_indexed
unfolding extended index_facts refs_from
one_indexed-HasTimes f i = elim i [
  | inl same ↦ rw same (omega arith, omega arith)
  | inr never ↦ absurd never
]

attribute_facts-Finds_example :
    (found : List Fact) × (attribute_facts age (in_memory one_indexed) ≡ some (ok found))
    × Finds age one_indexed.facts found
attribute_facts-Finds_example =
    attribute_facts-Finds age one_indexed
      (extend-IsSynced (first_fact ∷ []) new one_indexed new-IsSynced one_extended)
      one_indexed-HasTimes
